-- ===== src/Lapic/Setup.antt =====
-- lapic_init of drivers/lapic.c, on the tables of drivers/madt.c and drivers/paging.c.
use neko_os_c.Prelude.{
  ℕ, ◌+◌, ◌-◌, ◌*◌, ◌/◌, ◌%◌, ◌^◌, ◌≤◌, ◌≡◌, ◌⊎◌, inl, inr, refl, ◌∙◌, u64, bit_or, bit_or_bit, ok,
  panic, then_ok, then_panic, List, [], ◌∷◌, ◌++◌, arith,
}
use mathlib.Core.List.{append_assoc}
use neko_os_c.Lapic.{
  Lapic, RegWrite, Answers, lapic_init, setup_lapic, lapic_write, lapic_spurious, lapic_tpr,
  lapic_timer, lapic_timer_div, lapic_timer_init,
}
use neko_os_c.Madt.{Madt, madt_entries, madt_end}
use neko_os_c.Madt.Entries.{Ics, Holds, base_in}
use neko_os_c.Madt.Lookup.{madt_get-Holds}
use neko_os_c.Mem.{Bytes, word32}
use neko_os_c.Paging.{Pages, page_base, page_present, page_writable, page_cache_disable}
use neko_os_c.Paging.Mapping.{Tables}
use neko_os_c.Paging.Mmio.{NoHuge, Served, touched, paging_map_mmio_region-Served}

abbrev write_at : (base reg val : ℕ) → RegWrite
write_at base reg val = record { at_addr = u64 (base + reg); value = val }

-- The spurious vector 0xFF with the enable bit, all priorities, and a periodic timer on vector 0x20.
abbrev pub init_writes : (base timer : ℕ) → List RegWrite
init_writes base timer =
    write_at base lapic_spurious 0x1FF
    ∷ write_at base lapic_tpr 0
    ∷ write_at base lapic_timer_div 3
    ∷ write_at base lapic_timer 0x20020
    ∷ write_at base lapic_timer_init 0x100000
    ∷ write_at base lapic_timer timer
    ∷ []

pub record Enabled (p : Pages) (used base : ℕ) (read : Answers) (old l : Lapic) (q : Pages)
    : Type 0 where
  pub base_is : l.base ≡ base
  pub mapped :
      Served p used base 0x1000 (bit_or (bit_or page_writable page_cache_disable) page_present) q
  pub globally : l.msr / 2 ^ 11 % 2 ≡ 1
  pub low_bits : l.msr % 2 ^ 11 ≡ old.msr % 2 ^ 11
  pub high_bits : l.msr / 2 ^ 12 ≡ old.msr / 2 ^ 12
  pub writes_are : l.writes ≡ old.writes ++ init_writes base (read lapic_timer)

six_writes :
    (w : List RegWrite) (a b c d e f : RegWrite)
    → (((((w ++ (a ∷ [])) ++ (b ∷ [])) ++ (c ∷ [])) ++ (d ∷ [])) ++ (e ∷ [])) ++ (f ∷ [])
      ≡ w ++ (a ∷ b ∷ c ∷ d ∷ e ∷ f ∷ [])
six_writes w a b c d e f =
    append_assoc ((((w ++ (a ∷ [])) ++ (b ∷ [])) ++ (c ∷ [])) ++ (d ∷ [])) (e ∷ []) (f ∷ [])
    ∙ append_assoc (((w ++ (a ∷ [])) ++ (b ∷ [])) ++ (c ∷ [])) (d ∷ []) (e ∷ f ∷ [])
    ∙ append_assoc ((w ++ (a ∷ [])) ++ (b ∷ [])) (c ∷ []) (d ∷ e ∷ f ∷ [])
    ∙ append_assoc (w ++ (a ∷ [])) (b ∷ []) (c ∷ d ∷ e ∷ f ∷ [])
    ∙ append_assoc w (a ∷ []) (b ∷ c ∷ d ∷ e ∷ f ∷ [])

setup-Enabled :
    (p : Pages) (used base : ℕ) (read : Answers) (l : Lapic) (q : Pages)
    → Served p used base 0x1000 (bit_or (bit_or page_writable page_cache_disable) page_present) q
    → Enabled p used base read l (setup_lapic read (record l { base = base })) q
unfolding setup_lapic lapic_write
setup-Enabled p used base read l q served =
    let set = bit_or_bit 11 l.msr in
    record {
      base_is = refl;
      mapped = served;
      globally = omega (arith, set);
      low_bits = omega (arith, set);
      high_bits = omega (arith, set);
      writes_are = six_writes l.writes _ _ _ _ _ _;
    }

-- lapic_init, on an interrupt controller table whose entries are not empty, and where the device lies
-- below the highest addresses the processor translates and no huge page touches it, panics only when the
-- free page tables are less than three for each page of the device; else the device at the address of
-- the first override, or of the table's head without one, is mapped to itself and uncached, the enable
-- bit of IA32_APIC_BASE is set and no other, and the registers are written in this order.
pub lapic_init-Enabled :
    (m : Bytes) (madt : Madt) (read : Answers) (l : Lapic) (p : Pages) (used : ℕ) (es : List Ics)
    (t : Tables p p.pml4 used)
    → Holds m (madt_end m madt.madt_table) (madt_entries madt.madt_table) es
    → base_in es (word32 m (madt.madt_table + 36)) + 0x1000 ≤ 2 ^ 48 - 2 ^ 13
    → NoHuge p p.pml4
        (page_base (base_in es (word32 m (madt.madt_table + 36))))
        (touched (base_in es (word32 m (madt.madt_table + 36))) 0x1000)
    → ((lapic_init m madt read l p ≡ panic)
        × (33 ≤ used + touched (base_in es (word32 m (madt.madt_table + 36))) 0x1000 * 3))
      ⊎ ((n : Lapic) × (q : Pages) × (lapic_init m madt read l p ≡ ok (n, q))
          × Enabled p used (base_in es (word32 m (madt.madt_table + 36))) read l n q)
unfolding lapic_init
lapic_init-Enabled m madt read l p used es t holds top none =
    let base = base_in es (word32 m (madt.madt_table + 36)) in
    let found = (madt_get-Holds m madt es holds).0 in
    elim (paging_map_mmio_region-Served p used t base 0x1000 top none) [
      | inl (stops, full) ↦ inl (then_ok _ _ _ found ∙ then_panic _ _ stops, full)
      | inr (q, goes, served) ↦ inr (
        setup_lapic read (record l { base = base }),
        q,
        then_ok _ _ _ found ∙ then_ok _ _ _ goes,
        setup-Enabled p used base read l q served,
      )
    ]
