-- ===== src/Lapic/Ipi.antt =====
-- lapic_send_ipi of drivers/lapic.c.
use neko_os_c.Prelude.{
  ℕ, zero, suc, ◌+◌, ◌^◌, ◌≤◌, ◌<◌, ◌==◌, ◌≡◌, ◌≢◌, sym, ap, ◌∙◌, true, false, Bool, u32, u64,
  bit_and, ◌<<<◌, Run, ok, then_ok, List, [], ◌∷◌, ◌++◌, arith,
}
use mathlib.Core.List.{append_assoc}
use neko_os_c.Lapic.{
  Lapic, RegWrite, await_delivery, lapic_send_ipi, lapic_write, lapic_icr_high, lapic_icr_low,
}

abbrev pub Pending : ℕ → Type 0
Pending status = bit_and status (2 ^ 12) ≢ 0

await_clear :
    (fuel i : ℕ) (status : ℕ → ℕ)
    → bit_and (status i) (2 ^ 12) ≡ 0
    → await_delivery (suc fuel) i status ≡ ok (suc i)
unfolding await_delivery
await_clear fuel i status clear = ground (arith, clear)

await_more :
    (fuel i : ℕ) (status : ℕ → ℕ)
    → Pending (status i)
    → await_delivery (suc fuel) i status ≡ await_delivery fuel (suc i) status
unfolding await_delivery
await_more fuel i status pending =
    let test : (bit_and (status i) (2 ^ 12) == 0) ≡ false = ground (arith, pending) in
    let body : Bool → Run ℕ =
      λ b. elim b [ true ↦ ok (suc i) | false ↦ await_delivery fuel (suc i) status ] in
    ap body test

await-Pending :
    (n extra i : ℕ) (status : ℕ → ℕ)
    → ((j : ℕ) → i ≤ j → j < i + n → Pending (status j))
    → bit_and (status (i + n)) (2 ^ 12) ≡ 0
    → await_delivery (suc (n + extra)) i status ≡ ok (suc (i + n))
await-Pending zero extra i status pending clear =
    let here : i + 0 ≡ i = omega arith in
    await_clear (0 + extra) i status (ap (λ j. bit_and (status j) (2 ^ 12)) (sym here) ∙ clear)
    ∙ ap (λ j. ok (suc j)) (sym here)
await-Pending (suc n) extra i status pending clear =
    let moved : suc i + n ≡ i + suc n = omega arith in
    let less : suc n + extra ≡ suc (n + extra) = omega arith in
    await_more (suc n + extra) i status (pending i (omega arith) (omega arith))
    ∙ ap (λ f. await_delivery f (suc i) status) less
    ∙ await-Pending n extra (suc i) status
        (λ j from to. pending j (omega (arith, from)) (omega (arith, to, moved)))
        (ap (λ j. bit_and (status j) (2 ^ 12)) moved ∙ clear)
    ∙ ap (λ j. ok (suc j)) moved

abbrev pub ipi_writes : (base apic_id flags : ℕ) → List RegWrite
ipi_writes base apic_id flags =
    record { at_addr = u64 (base + lapic_icr_high); value = u32 (apic_id <<< 24) }
    ∷ record { at_addr = u64 (base + lapic_icr_low); value = flags }
    ∷ []

-- lapic_send_ipi returns once the device shows that the interrupt is delivered: it writes the target,
-- then the command, each once, and reads the status until the first time that the delivery bit is
-- clear, which any number of rounds above the `n` reads before allows.
pub lapic_send_ipi_lem :
    (n extra apic_id flags : ℕ) (status : ℕ → ℕ) (l : Lapic)
    → ((j : ℕ) → j < n → Pending (status j))
    → bit_and (status n) (2 ^ 12) ≡ 0
    → lapic_send_ipi (suc (n + extra)) apic_id flags status l
      ≡ ok (suc n, record l { writes = l.writes ++ ipi_writes l.base apic_id flags })
unfolding lapic_send_ipi lapic_write
lapic_send_ipi_lem n extra apic_id flags status l pending clear =
    let zero_left : 0 + n ≡ n = omega arith in
    let delivered : await_delivery (suc (n + extra)) 0 status ≡ ok (suc n) =
      await-Pending n extra 0 status (λ j from to. pending j (omega (arith, to)))
        (ap (λ j. bit_and (status j) (2 ^ 12)) zero_left ∙ clear)
      ∙ ap (λ j. ok (suc j)) zero_left in
    then_ok _ _ _ delivered
    ∙ ap (λ w. ok (suc n, record l { writes = w }))
        (append_assoc l.writes
          (record { at_addr = u64 (l.base + lapic_icr_high); value = u32 (apic_id <<< 24) } ∷ [])
          (record { at_addr = u64 (l.base + lapic_icr_low); value = flags } ∷ []))
