-- ===== src/Serial.antt =====
-- drivers/serial.c: the serial port COM1.
pub mod Sent
mod Witness
use neko_os_c.Prelude.{
  ℕ, zero, suc, Bool, true, false, not, ◌==◌, bit_and, List, [], ◌∷◌, Run, ok, out_of_fuel, ◌>>=◌,
}
use neko_os_c.Format.Print.{print}
use neko_os_c.Format.Vprintf.{vprintf}

-- What the `n`-th read of the line status says, the reads so far, and the writes to the ports, the
-- latest first.
pub record Uart : Type 0 where
  pub status : ℕ → ℕ
  pub reads : ℕ
  pub writes : List (ℕ × ℕ)

abbrev pub com1 : ℕ
com1 = 0x3F8

unfoldable pub outb : (port value : ℕ) → Uart → Uart
outb port value u = record u { writes = (port, value) ∷ u.writes }

unfoldable pub serial_init : Uart → Uart
unfolding outb
serial_init u = outb 0x3FC 0x0B (
    outb 0x3FA 0xC7
      (outb 0x3FB 0x03 (outb 0x3F9 0x00 (outb 0x3F8 0x03 (outb 0x3FB 0x80 (outb 0x3F9 0x00 u))))))

-- Bit 5 of the line status: the transmitter takes a byte.
abbrev pub transmit_empty : ℕ → Bool
transmit_empty status = not (bit_and status 0x20 == 0)

-- Polls until the transmitter is empty; `patience` bounds the polls.
unfoldable pub wait : (patience : ℕ) → Uart → Run Uart
wait zero u = out_of_fuel
wait (suc n) u =
    let u' = record u { reads = suc u.reads } in
    elim (transmit_empty (u.status u.reads)) [ true ↦ ok u' | false ↦ wait n u' ]

unfoldable pub serial_putchar : (patience c : ℕ) → Uart → Run Uart
unfolding wait outb
serial_putchar patience c u = wait patience u >>= λ u'. ok (outb com1 c u')

-- A string is the list of its characters before the terminator.
unfoldable pub serial_print : (patience : ℕ) → List ℕ → Uart → Run Uart
unfolding print serial_putchar
serial_print patience str u = print (serial_putchar patience) str u

unfoldable pub svprintf : (patience : ℕ) → (ℕ → ℕ) → (fmt args : List ℕ) → Uart → Run Uart
unfolding vprintf serial_putchar
svprintf patience memory fmt args u = vprintf (serial_putchar patience) memory fmt args u
