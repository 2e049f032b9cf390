-- ===== src/Acpi/Witness.antt =====
-- The theorem of drivers/acpi.c at a concrete input.
use neko_os_c.Prelude.{◌-◌, ◌≡◌, refl, arith, ok, [], ◌∷◌, get_or, ltb, if◌then◌else◌, suc, zero}
use neko_os_c.Acpi.{Acpi, Literals, acpi_parse_tables}
use neko_os_c.Acpi.Tables.{
  hpet_table, is_hpet, entry, no_entry, noted_all, Signed, acpi_parse_tables-noted_all,
}
use neko_os_c.Mem.{Bytes}

-- The strings stand at 100 and 104, an XSDT with one entry at 2000, and a table of a timer at 3000.
abbrev acpi_bytes : Bytes
acpi_bytes a =
    if ltb a 2000
    then get_or (65 ∷ 80 ∷ 73 ∷ 67 ∷ 72 ∷ 80 ∷ 69 ∷ 84 ∷ []) (a - 100) 0
    else if ltb a 2036
    then get_or (88 ∷ 83 ∷ 68 ∷ 84 ∷ 44 ∷ []) (a - 2000) 0
    else if ltb a 3000
    then get_or (0xB8 ∷ 0x0B ∷ []) (a - 2036) 0
    else get_or (72 ∷ 80 ∷ 69 ∷ 84 ∷ []) (a - 3000) 0

abbrev literals : Literals
literals = record { apic = 100; hpet = 104 }

abbrev before_tables : Acpi
before_tables = record {
  madt = record { madt_table = 0; cpu_count = 0; logged = [] };
  hpet = record { table = 0; base = 0; period = 0; freq = 0; writes = []; logged = [] };
  rsdp_bytes = [];
  logged = [];
}

timer-Signed : Signed 104 acpi_bytes 3000
timer-Signed zero low = refl
timer-Signed (suc zero) low = refl
timer-Signed (suc (suc zero)) low = refl
timer-Signed (suc (suc (suc zero))) low = refl
timer-Signed (suc (suc (suc (suc k)))) low = absurd (omega arith)

acpi_parse_tables-noted_all_example :
    acpi_parse_tables literals acpi_bytes 2000 8 before_tables
    ≡ ok (noted_all ((3000, hpet_table) ∷ []) before_tables)
acpi_parse_tables-noted_all_example =
    acpi_parse_tables-noted_all literals acpi_bytes 2000 8 ((3000, hpet_table) ∷ []) before_tables
      (λ e. absurd (omega (arith, e))) (omega arith) refl
      (entry 0 3000 hpet_table [] refl (is_hpet timer-Signed) (no_entry 1))
