-- ===== src/Lapic/Witness.antt =====
-- The theorems of drivers/lapic.c at concrete inputs.
use neko_os_c.Prelude.{
  ℕ, ◌+◌, ◌*◌, ◌-◌, ◌≡◌, ◌≤◌, ◌⊎◌, arith, ok, panic, [], ◌∷◌, get_or, if◌then◌else◌, ltb,
}
use neko_os_c.Lapic.{Lapic, lapic_init}
use neko_os_c.Lapic.Setup.{Enabled, lapic_init-Enabled}
use neko_os_c.Madt.{Madt}
use neko_os_c.Madt.Entries.{done}
use neko_os_c.Mem.{Bytes}
use neko_os_c.Paging.{Pages}
use neko_os_c.Paging.Fresh.{fresh_pages, fresh-Tables, fresh-NoHuge}
use neko_os_c.Paging.Mmio.{touched}

abbrev idle_lapic : Lapic
idle_lapic = record { base = 0; msr = 0xFEE00100; writes = []; logged = [] }

-- The device is busy for two reads.
abbrev busy_twice : ℕ → ℕ
busy_twice i = if ltb i 2 then 0x1000 else 0

-- A table of 44 bytes at 100 without entries.
abbrev bare_bytes : Bytes
bare_bytes a =
    get_or (44 ∷ 0 ∷ 0 ∷ 0 ∷ []) (a - 104)
      (if ltb a 138 then 0 else if ltb a 139 then 0xE0 else if ltb a 140 then 0xFE else 0)

abbrev bare_madt : Madt
bare_madt = record { madt_table = 100; cpu_count = 1; logged = [] }

lapic_init-Enabled_example :
    ((lapic_init bare_bytes bare_madt (λ r. 0x20020) idle_lapic fresh_pages ≡ panic)
      × (33 ≤ 1 + touched 0xFEE00000 0x1000 * 3))
    ⊎ ((n : Lapic) × (q : Pages) × (lapic_init bare_bytes bare_madt
            (λ r. 0x20020)
            idle_lapic
            fresh_pages
          ≡ ok (n, q))
        × Enabled fresh_pages 1 0xFEE00000 (λ r. 0x20020) idle_lapic n q)
lapic_init-Enabled_example =
    lapic_init-Enabled bare_bytes bare_madt (λ r. 0x20020) idle_lapic fresh_pages 1 [] fresh-Tables
      (done 144 (omega arith)) (omega arith) (fresh-NoHuge 0xFEE00000 1)
