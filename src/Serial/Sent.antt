-- ===== src/Serial/Sent.antt =====
-- drivers/serial.c and lib/sprintf.c: what reaches the serial port.
use neko_os_c.Prelude.{
  ℕ, zero, suc, ◌+◌, ◌<◌, ◌≡◌, refl, ap, sym, ◌∙◌, true, false, Bool-cases, List, [], ◌∷◌, ok,
  ◌>>=◌, arith, inl, inr,
}
use neko_os_c.Serial.{Uart, com1, outb, transmit_empty, wait, serial_putchar, svprintf}
use neko_os_c.Format.Print.{print}
use neko_os_c.Format.Device.{format_text, vprintf-format_text}

-- Among any `patience` reads of the line status in a row, one finds the transmitter empty.
abbrev pub Responsive : (patience : ℕ) → Uart → Type 0
Responsive patience u =
    (n : ℕ) → (k : ℕ) × ((k < patience) × (transmit_empty (u.status (n + k)) ≡ true))

-- The writes to the ports behind a text.
abbrev pub sent : List ℕ → List (ℕ × ℕ) → List (ℕ × ℕ)
sent [] w = w
sent (c ∷ t) w = sent t ((com1, c) ∷ w)

wait_now :
    (n : ℕ) (u : Uart)
    → transmit_empty (u.status u.reads) ≡ true
    → wait (suc n) u ≡ ok (record u { reads = suc u.reads })
unfolding wait
wait_now n u e = rw (wait, e) refl

wait_more :
    (n : ℕ) (u : Uart)
    → transmit_empty (u.status u.reads) ≡ false
    → wait (suc n) u ≡ wait n (record u { reads = suc u.reads })
unfolding wait
wait_more n u e = rw (wait, e) refl

shift : (r k : ℕ) → r + suc k ≡ suc r + k
shift r k = omega arith

still : (r : ℕ) → r + 0 ≡ r
still r = omega arith

wait_ends :
    (n k : ℕ) (u : Uart)
    → k < n
    → transmit_empty (u.status (u.reads + k)) ≡ true
    → (m : ℕ) × (wait n u ≡ ok (record u { reads = m }))
wait_ends zero k u low e = absurd (omega arith)
wait_ends (suc n) zero u low e =
    (suc u.reads, wait_now n u (ap (λ r. transmit_empty (u.status r)) (sym (still u.reads)) ∙ e))
wait_ends (suc n) (suc k) u low e = elim (Bool-cases (transmit_empty (u.status u.reads))) [
  | inl now ↦ (suc u.reads, wait_now n u now)
  | inr busy ↦
      (let (m, run) =
          wait_ends n k (record u { reads = suc u.reads }) (omega arith)
            (ap (λ r. transmit_empty (u.status r)) (sym (shift u.reads k)) ∙ e) in
        (m, wait_more n u busy ∙ run))
]

serial_putchar_ends :
    (patience c : ℕ) (u : Uart)
    → Responsive patience u
    → (m : ℕ) × (serial_putchar patience c u
        ≡ ok (record u { reads = m; writes = (com1, c) ∷ u.writes }))
unfolding serial_putchar outb
serial_putchar_ends patience c u ready =
    let (k, (low, e)) = ready u.reads in
    let (m, run) = wait_ends patience k u low e in
    (m, ap (λ r. r >>= λ u'. ok (outb com1 c u')) run)

-- A text reaches the port, character by character and in order, through any other state.
pub print_ends :
    (patience : ℕ) (t : List ℕ) (u : Uart)
    → Responsive patience u
    → (m : ℕ) × (print (serial_putchar patience) t u
        ≡ ok (record u { reads = m; writes = sent t u.writes }))
unfolding print
print_ends patience [] u ready = (u.reads, refl)
print_ends patience (c ∷ t) u ready =
    let (m, run) = serial_putchar_ends patience c u ready in
    let (m', run') =
      print_ends patience t (record u { reads = m; writes = (com1, c) ∷ u.writes }) ready in
    (m', ap (λ r. r >>= print (serial_putchar patience) t) run ∙ run')

-- On a port that is ready once among any `patience` reads of its status, svprintf returns, and has
-- written exactly the text of the format to the data register, in order.
pub svprintf-sent :
    (patience : ℕ) (memory : ℕ → ℕ) (fmt args t : List ℕ) (u : Uart)
    → Responsive patience u
    → format_text memory fmt args ≡ ok t
    → (m : ℕ) × (svprintf patience memory fmt args u
        ≡ ok (record u { reads = m; writes = sent t u.writes }))
unfolding svprintf
svprintf-sent patience memory fmt args t u ready text =
    let (m, run) = print_ends patience t u ready in
    (m, vprintf-format_text (serial_putchar patience) memory fmt args t u text ∙ run)
