-- ===== src/Madt/Witness.antt =====
-- Tests of drivers/madt.c, and its theorems at concrete inputs.
use neko_os_c.Prelude.{
  ℕ, ◌-◌, ◌≡◌, refl, arith, ok, out_of_fuel, List, [], ◌∷◌, ◌++◌, get_or, replicate, ◌⊎◌,
}
use neko_os_c.Mem.{Bytes}
use neko_os_c.Madt.{
  Madt, madt_parse, parse_entries, madt_entry, madt_entries, madt_end, madt_get_lapic_base,
  madt_get_lapic_id, madt_get_ioapic_addr, lapic_id_from, lapic_line, ioapic_line,
}
use neko_os_c.Madt.Entries.{Ics, local_apic, io_apic, Holds, Stuck, done, more, id_in, ioapic_in}
use neko_os_c.Madt.Lookup.{madt_get-Holds}
use neko_os_c.Madt.Parse.{madt_parse-Holds, counted}

-- A table of 64 bytes at address 100: a local controller at 0xFEE00000, processor 5 with the identifier
-- 3, enabled, and the I/O controller 2 at 0xFEC00000.
abbrev table_bytes : List ℕ
table_bytes =
    (65 ∷ 80 ∷ 73 ∷ 67 ∷ 64 ∷ 0 ∷ 0 ∷ 0 ∷ replicate 28 0)
    ++ (0 ∷ 0 ∷ 0xE0 ∷ 0xFE ∷ 1 ∷ 0 ∷ 0 ∷ 0 ∷ 0 ∷ 8 ∷ 5 ∷ 3 ∷ 1 ∷ 0 ∷ 0 ∷ 0 ∷ 1 ∷ 12 ∷ 2 ∷ 0 ∷ 0 ∷ 0
        ∷ 0xC0 ∷ 0xFE ∷ 0 ∷ 0 ∷ 0 ∷ 0 ∷ [])

abbrev small_table : Bytes
small_table a = get_or table_bytes (a - 100) 0

abbrev no_table : Madt
no_table = record { madt_table = 0; cpu_count = 0; logged = [] }

abbrev parsed_table : Madt
parsed_table = record {
  madt_table = 100;
  cpu_count = 1;
  logged = lapic_line 5 3 1 ∷ ioapic_line 2 0xFEC00000 0 ∷ [];
}

test_parse : madt_parse small_table 100 no_table ≡ ok parsed_table
unfolding madt_parse parse_entries madt_entry
test_parse = refl

test_lookup : madt_get_lapic_id small_table 5 parsed_table ≡ ok 3
unfolding madt_get_lapic_id lapic_id_from
test_lookup = refl

-- The entries of the table.
abbrev two_entries : List Ics
two_entries = local_apic 5 3 1 ∷ io_apic 2 0xFEC00000 0 ∷ []

small_table-Holds : Holds small_table 164 144 two_entries
small_table-Holds =
    more 144 (io_apic 2 0xFEC00000 0 ∷ []) (omega arith) (omega arith)
      (more 152 [] (omega arith) (omega arith) (done 164 (omega arith)))

madt_get-Holds_example :
    (madt_get_lapic_base small_table parsed_table ≡ ok 0xFEE00000)
    × ((cpu : ℕ) → madt_get_lapic_id small_table cpu parsed_table ≡ ok (id_in two_entries cpu))
    × ((id : ℕ) → madt_get_ioapic_addr small_table id parsed_table ≡ ok (ioapic_in two_entries id))
madt_get-Holds_example = madt_get-Holds small_table parsed_table two_entries small_table-Holds

madt_parse-Holds_example :
    ((es : List Ics) × Holds small_table (madt_end small_table 100) (madt_entries 100) es
      × (madt_parse small_table 100 no_table
          ≡ ok (counted es (record no_table { madt_table = 100 }))))
    ⊎ (Stuck small_table (madt_end small_table 100) (madt_entries 100)
        × ((fuel : ℕ)
            → parse_entries fuel
                (madt_entries 100)
                (madt_end small_table 100)
                small_table
                (record no_table { madt_table = 100 })
              ≡ out_of_fuel))
madt_parse-Holds_example = madt_parse-Holds small_table 100 no_table (omega arith)
