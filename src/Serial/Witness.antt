-- ===== src/Serial/Witness.antt =====
-- drivers/serial.c: a port that is ready at every second read of its status.
use neko_os_c.Prelude.{ℕ, ◌+◌, ◌*◌, ◌%◌, ◌≡◌, ◌⊎◌, inl, inr, refl, ap, List, [], ◌∷◌, ok, arith}
use neko_os_c.Serial.{Uart, svprintf, transmit_empty}
use neko_os_c.Serial.Sent.{Responsive, sent, svprintf-sent}
use neko_os_c.Format.Parse.{parse_spec, next_arg}
use neko_os_c.Format.Print.{uint_digits, fill_digits}

abbrev port : Uart
port = record { status = λ n. (n % 2) * 0x60; reads = 0; writes = [] }

odd_or_even : (n : ℕ) → ((n + 0) % 2 ≡ 1) ⊎ ((n + 1) % 2 ≡ 1)
odd_or_even n = omega arith

port-Responsive : Responsive 2 port
port-Responsive n = elim (odd_or_even n) [
  | inl odd ↦ (0, (omega arith, ap (λ r. transmit_empty (r * 0x60)) odd))
  | inr even ↦ (1, (omega arith, ap (λ r. transmit_empty (r * 0x60)) even))
]

-- "n=%d"
abbrev fmt : List ℕ
fmt = 110 ∷ 61 ∷ 37 ∷ 100 ∷ 10 ∷ []

svprintf-sent_example :
    (m : ℕ) × (svprintf 2 (λ a. 0) fmt (7 ∷ []) port
      ≡ ok (record port { reads = m; writes = sent (110 ∷ 61 ∷ 55 ∷ 10 ∷ []) [] }))
svprintf-sent_example =
    svprintf-sent 2 (λ a. 0) fmt (7 ∷ []) (110 ∷ 61 ∷ 55 ∷ 10 ∷ []) port port-Responsive
      (unfold parse_spec next_arg uint_digits fill_digits in refl)
