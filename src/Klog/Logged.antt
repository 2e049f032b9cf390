-- ===== src/Klog/Logged.antt =====
-- lib/klogf.c: what a log line leaves on the two devices.
use neko_os_c.Prelude.{
  ℕ, ◌≡◌, refl, ap, sym, ◌∙◌, if◌then◌else◌, true, List, [], ◌∷◌, ◌++◌, ◌==◌, Run, ok, out_of_fuel,
  ◌>>=◌,
}
use neko_os_c.Serial.{Uart, com1, serial_print, svprintf}
use neko_os_c.Serial.Sent.{Responsive, sent, print_ends, svprintf-sent}
use neko_os_c.Console.{Console, console_set_color, console_putchar, console_print, cvprintf}
use neko_os_c.Console.Grid.{IsGrid}
use neko_os_c.Console.Typed.{Typed, console_putchar-Typed}
use neko_os_c.Console.Output.{AllTyped, console_print-AllTyped, cvprintf-AllTyped}
use neko_os_c.Framebuffer.{fb_color}
use neko_os_c.Format.Device.{format_text}
use neko_os_c.Klog.{LogLevel, Log, tag, tag_color, kvlog, klog, on_serial, if_ready}
use neko_os_c.Format.Int.{bind_to}

sent-append : (s t : List ℕ) (w : List (ℕ × ℕ)) → sent t (sent s w) ≡ sent (s ++ t) w
sent-append [] t w = refl
sent-append (c ∷ s) t w = sent-append s t ((com1, c) ∷ w)

serial_print_ends :
    (patience : ℕ) (t : List ℕ) (u : Uart)
    → Responsive patience u
    → (m : ℕ) × (serial_print patience t u ≡ ok (record u { reads = m; writes = sent t u.writes }))
unfolding serial_print
serial_print_ends patience t u ready = print_ends patience t u ready

recolored : (fg bg : ℕ) (k : Console) → IsGrid k → IsGrid (console_set_color fg bg k)
recolored fg bg k is = record {
  in_row = is.in_row;
  in_column = is.in_column;
  size_fits = is.size_fits;
  rows_fit = is.rows_fit;
  cols_fit = is.cols_fit;
  allocated = is.allocated;
}

-- The line on the console: the tag in its colour, the text and the line break in white.
abbrev pub Shown : LogLevel → List ℕ → Console → Console → Type 0
Shown level t k k' =
    (k1 : Console) × (AllTyped (tag level) (console_set_color (tag_color level) (fb_color 0 0 0) k)
        k1
      × ((k2 : Console) × (AllTyped t (console_set_color (fb_color 255 255 255) (fb_color 0 0 0) k1)
              k2
            × Typed 10 k2 k')))

on_serial_run :
    (f : Uart → Run Uart) (l : Log) (u : Uart)
    → f l.uart ≡ ok u
    → on_serial f l ≡ ok (record l { uart = u })
on_serial_run f l u e = ap (λ r. r >>= λ u. ok (record l { uart = u })) e

if_ready_run :
    (f : Console → Run Console) (l : Log) (k : Console)
    → l.console.initialized ≡ true
    → f l.console ≡ ok k
    → if_ready f l ≡ ok (record l { console = k })
if_ready_run f l k i e =
    ap (λ b. if b then (f l.console >>= λ k. ok (record l { console = k })) else ok l) i
    ∙ ap (λ r. r >>= λ k. ok (record l { console = k })) e

-- A run of kvlog from the runs of its calls.
kvlog_run :
    (patience : ℕ) (memory : ℕ → ℕ) (level : LogLevel) (fmt args : List ℕ) (n : ℕ)
    (u u1 u2 u3 : Uart) (k k1 k2 k3 : Console)
    → serial_print patience (tag level) u ≡ ok u1
    → console_print (tag level) (console_set_color (tag_color level) (fb_color 0 0 0) k) ≡ ok k1
    → cvprintf memory fmt args (console_set_color (fb_color 255 255 255) (fb_color 0 0 0) k1)
      ≡ ok k2
    → svprintf patience memory fmt args u1 ≡ ok u2
    → svprintf patience memory (10 ∷ []) [] u2 ≡ ok u3
    → console_putchar 10 k2 ≡ ok k3
    → k.initialized ≡ true
    → k1.initialized ≡ true
    → k2.initialized ≡ true
    → kvlog patience memory level fmt args (record { uart = u; console = k; locked = n })
      ≡ ok (record { uart = u3; console = k3; locked = n })
unfolding kvlog
kvlog_run patience memory level fmt args n u u1 u2 u3 k k1 k2 k3 a b c d e f i i1 i2 =
    bind_to _ (on_serial_run (serial_print patience (tag level)) (at u k) u1 a) (
      bind_to _ (if_ready_run (λ k. console_print (tag level) (tagged k)) (at u1 k) k1 i b) (
        bind_to _ (if_ready_run (λ k. ok (white k)) (at u1 k1) (white k1) i1 refl) (
          bind_to _ (if_ready_run (cvprintf memory fmt args) (at u1 (white k1)) k2 i1 c) (
            bind_to _ (on_serial_run (svprintf patience memory fmt args) (at u1 k2) u2 d) (
              bind_to _ (on_serial_run (svprintf patience memory (10 ∷ []) []) (at u2 k2) u3 e)
                (if_ready_run (console_putchar 10) (at u3 k2) k3 i2 f))))))
  where
    at : Uart → Console → Log
    at u k = record { uart = u; console = k; locked = n }

    white : Console → Console
    white k = console_set_color (fb_color 255 255 255) (fb_color 0 0 0) k

    tagged : Console → Console
    tagged k = console_set_color (tag_color level) (fb_color 0 0 0) k

still_ready : (t : List ℕ) (k k' : Console) → AllTyped t k k' → k'.initialized ≡ k.initialized
still_ready [] k k' e = ap (λ (q : Console). q.initialized) (sym e)
still_ready (c ∷ t) k k' (k1, (first, rest)) = still_ready t k1 k' rest ∙ first.same_size.1.1.1.1.1

line_is :
    (a b : List ℕ) (w : List (ℕ × ℕ))
    → sent (10 ∷ []) (sent b (sent a w)) ≡ sent (a ++ (b ++ (10 ∷ []))) w
line_is a b w = sent-append b (10 ∷ []) (sent a w) ∙ sent-append a (b ++ (10 ∷ [])) w

kvlog-Shown :
    (patience : ℕ) (memory : ℕ → ℕ) (level : LogLevel) (fmt args t : List ℕ) (l : Log)
    → Responsive patience l.uart
    → format_text memory fmt args ≡ ok t
    → l.console.initialized ≡ true
    → IsGrid l.console
    → (m : ℕ) × ((k' : Console) × ((kvlog patience memory level fmt args l
            ≡ ok (record l {
              uart = record l.uart {
                reads = m;
                writes = sent (tag level ++ (t ++ (10 ∷ []))) l.uart.writes;
              };
              console = k';
            }))
          × (IsGrid k' × Shown level t l.console k')))
kvlog-Shown patience memory level fmt args t l answers text ready is =
    let u = l.uart in
    let k = l.console in
    let (m1, a) = serial_print_ends patience (tag level) u answers in
    let u1 : Uart = record u { reads = m1; writes = sent (tag level) u.writes } in
    let (k1, (b, (is1, shown1))) =
      console_print-AllTyped (tag level) (console_set_color (tag_color level) (fb_color 0 0 0) k)
        (recolored (tag_color level) (fb_color 0 0 0) k is) in
    let (k2, (c, (is2, shown2))) =
      cvprintf-AllTyped memory fmt args t
        (console_set_color (fb_color 255 255 255) (fb_color 0 0 0) k1)
        (recolored (fb_color 255 255 255) (fb_color 0 0 0) k1 is1) text in
    let (m2, d) = svprintf-sent patience memory fmt args t u1 answers text in
    let u2 : Uart = record u1 { reads = m2; writes = sent t u1.writes } in
    let (m3, e) = svprintf-sent patience memory (10 ∷ []) [] (10 ∷ []) u2 answers refl in
    let u3 : Uart = record u2 { reads = m3; writes = sent (10 ∷ []) u2.writes } in
    let (k3, (f, (is3, shown3))) = console_putchar-Typed 10 k2 is2 in
    let ready1 = still_ready (tag level) _ k1 shown1 ∙ ready in
    let ready2 = still_ready t _ k2 shown2 ∙ ready1 in
    (
      m3,
      (
        k3,
        (
          kvlog_run patience memory level fmt args l.locked u u1 u2 u3 k k1 k2 k3 a b c d e f ready
                ready1 ready2
              ∙ ap
                  (λ (w : List (ℕ × ℕ)). ok (record {
                    uart = record u { reads = m3; writes = w };
                    console = k3;
                    locked = l.locked;
                  }))
                  (line_is (tag level) t u.writes),
          (is3, (k1, (shown1, (k2, (shown2, shown3))))),
        ),
      ),
    )

unlocked_run :
    (patience : ℕ) (memory : ℕ → ℕ) (level : LogLevel) (fmt args : List ℕ) (l l' : Log)
    → l.locked ≡ 0
    → kvlog patience memory level fmt args (record l { locked = 1 }) ≡ ok l'
    → klog patience memory level fmt args l ≡ ok (record l' { locked = 0 })
unfolding klog
unlocked_run patience memory level fmt args l l' free run =
    ap (λ n. if n == 0 then held else out_of_fuel) free ∙ bind_to (λ q. ok (freed q)) run refl
  where
    freed : Log → Log
    freed q = record q { locked = 0 }

    held : Run Log
    held = kvlog patience memory level fmt args (record l { locked = 1 }) >>= λ q. ok (freed q)

-- Where the lock is free, on a port that answers and a console that is ready, a format that has a text is logged as one line on
-- both: on the port the tag of the level, the text and a line break, in order; on the console the tag
-- in the colour of the level and the rest in white, typed one after the other.
pub klog-Shown :
    (patience : ℕ) (memory : ℕ → ℕ) (level : LogLevel) (fmt args t : List ℕ) (l : Log)
    → l.locked ≡ 0
    → Responsive patience l.uart
    → format_text memory fmt args ≡ ok t
    → l.console.initialized ≡ true
    → IsGrid l.console
    → (m : ℕ) × ((k' : Console) × ((klog patience memory level fmt args l
            ≡ ok (record {
              uart = record l.uart {
                reads = m;
                writes = sent (tag level ++ (t ++ (10 ∷ []))) l.uart.writes;
              };
              console = k';
              locked = 0;
            }))
          × (IsGrid k' × Shown level t l.console k')))
klog-Shown patience memory level fmt args t l free answers text ready is =
    let (m, (k', (run, rest))) =
      kvlog-Shown patience memory level fmt args t (record l { locked = 1 }) answers text ready
        is in
    (m, (k', (unlocked_run patience memory level fmt args l _ free run, rest)))
