-- ===== src/Klog.antt =====
-- lib/klogf.c: a log line on the serial port and, once it is ready, on the console.
pub mod Logged
mod Witness
use neko_os_c.Prelude.{ℕ, ◌==◌, if◌then◌else◌, List, [], ◌∷◌, Run, ok, out_of_fuel, ◌>>=◌}
use neko_os_c.Serial.{Uart, serial_print, svprintf}
use neko_os_c.Console.{Console, console_set_color, console_putchar, console_print, cvprintf}
use neko_os_c.Framebuffer.{fb_color}

pub data LogLevel : Type 0 where
  log_info log_warn log_error log_fatal : LogLevel

-- The two devices, and `klog_lock`.
pub record Log : Type 0 where
  pub uart : Uart
  pub console : Console
  pub locked : ℕ

-- "[INFO]  ", "[WARN]  ", "[ERROR] " and "[FATAL] ".
abbrev pub tag : LogLevel → List ℕ
tag log_info = 91 ∷ 73 ∷ 78 ∷ 70 ∷ 79 ∷ 93 ∷ 32 ∷ 32 ∷ []
tag log_warn = 91 ∷ 87 ∷ 65 ∷ 82 ∷ 78 ∷ 93 ∷ 32 ∷ 32 ∷ []
tag log_error = 91 ∷ 69 ∷ 82 ∷ 82 ∷ 79 ∷ 82 ∷ 93 ∷ 32 ∷ []
tag log_fatal = 91 ∷ 70 ∷ 65 ∷ 84 ∷ 65 ∷ 76 ∷ 93 ∷ 32 ∷ []

abbrev pub tag_color : LogLevel → ℕ
tag_color log_info = fb_color 0 255 0
tag_color log_warn = fb_color 255 255 0
tag_color log_error = fb_color 255 0 0
tag_color log_fatal = fb_color 255 0 255

abbrev pub on_serial : (Uart → Run Uart) → Log → Run Log
on_serial f l = f l.uart >>= λ u. ok (record l { uart = u })

-- `if (console_ready())`.
abbrev pub if_ready : (Console → Run Console) → Log → Run Log
if_ready f l =
    if l.console.initialized then (f l.console >>= λ k. ok (record l { console = k })) else ok l

unfoldable pub kvlog : (patience : ℕ) → (ℕ → ℕ) → LogLevel → (fmt args : List ℕ) → Log → Run Log
kvlog patience memory level fmt args l = on_serial (serial_print patience (tag level)) l >>= λ l1.
    if_ready
      (λ k. console_print (tag level) (console_set_color (tag_color level) (fb_color 0 0 0) k)) l1
    >>= λ l2.
        if_ready (λ k. ok (console_set_color (fb_color 255 255 255) (fb_color 0 0 0) k)) l2
        >>= λ l3. if_ready (cvprintf memory fmt args) l3 >>= λ l4.
            on_serial (svprintf patience memory fmt args) l4 >>= λ l5.
            on_serial (svprintf patience memory (10 ∷ []) []) l5 >>= λ l6.
            if_ready (console_putchar 10) l6

-- klog waits for the lock, which no other processor holds here.
unfoldable pub klog : (patience : ℕ) → (ℕ → ℕ) → LogLevel → (fmt args : List ℕ) → Log → Run Log
klog patience memory level fmt args l =
    if l.locked == 0
    then (kvlog patience memory level fmt args (record l { locked = 1 }) >>= λ l'.
        ok (record l' { locked = 0 }))
    else out_of_fuel
