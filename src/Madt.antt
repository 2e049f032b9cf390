-- ===== src/Madt.antt =====
-- drivers/madt.c: the interrupt controllers that the firmware's table lists.
pub mod Entries
pub mod Parse
pub mod Lookup
mod Witness
use neko_os_c.Prelude.{
  ℕ, zero, suc, ◌+◌, Bool, true, false, ◌==◌, ◌&&◌, ltb, if◌then◌else◌, u32, Run, ok, out_of_fuel,
  List, [], ◌∷◌, ◌++◌, bit_and,
}
use neko_os_c.Mem.{Bytes, word16, word32, word64}

-- madt_ics_type_t
abbrev pub madt_type_lapic : ℕ
madt_type_lapic = 0

abbrev pub madt_type_ioapic : ℕ
madt_type_ioapic = 1

abbrev pub madt_type_iso : ℕ
madt_type_iso = 2

abbrev pub madt_type_lapic_nmi : ℕ
madt_type_lapic_nmi = 4

abbrev pub madt_type_lapic_override : ℕ
madt_type_lapic_override = 5

-- The offset of `entries` in madt_t, and `end`.
abbrev pub madt_entries : ℕ → ℕ
madt_entries madt = madt + 44

abbrev pub madt_end : Bytes → ℕ → ℕ
madt_end m madt = madt + word32 m (madt + 4)

-- The lines of the log, by the arguments of each.
pub data Line : Type 0 where
  lapic_line : (cpu apic_id flags : ℕ) → Line
  ioapic_line : (id addr gsi_base : ℕ) → Line
  iso_line : (irq gsi flags : ℕ) → Line
  lapic_nmi_line : (cpu lint : ℕ) → Line

-- The static variables, and the lines logged; `madt_table` is 0 when it is null.
pub record Madt : Type 0 where
  pub madt_table : ℕ
  pub cpu_count : ℕ
  pub logged : List Line

-- The fields of the entries: acpi_processor_uid, apic_id and flags; ioapic_id and ioapic_addr.
abbrev pub lapic_uid : Bytes → ℕ → ℕ
lapic_uid m ptr = m (ptr + 2)

abbrev pub lapic_id : Bytes → ℕ → ℕ
lapic_id m ptr = m (ptr + 3)

abbrev pub lapic_flags : Bytes → ℕ → ℕ
lapic_flags m ptr = word32 m (ptr + 4)

abbrev pub ioapic_id : Bytes → ℕ → ℕ
ioapic_id m ptr = m (ptr + 2)

abbrev pub ioapic_addr : Bytes → ℕ → ℕ
ioapic_addr m ptr = word32 m (ptr + 4)

abbrev pub log_line : Line → Madt → Madt
log_line l s = record s { logged = s.logged ++ (l ∷ []) }

-- The switch of madt_parse.
unfoldable pub madt_entry : Bytes → ℕ → Madt → Madt
madt_entry m ptr s =
    let type = m ptr in
    if type == madt_type_lapic
    then log_line (lapic_line (lapic_uid m ptr) (lapic_id m ptr) (lapic_flags m ptr)) (
        if bit_and (lapic_flags m ptr) 1 == 1
        then record s { cpu_count = u32 (s.cpu_count + 1) }
        else s)
    else if type == madt_type_ioapic
    then log_line (ioapic_line (ioapic_id m ptr) (ioapic_addr m ptr) (word32 m (ptr + 8))) s
    else if type == madt_type_iso
    then log_line (iso_line (m (ptr + 3)) (word32 m (ptr + 4)) (word16 m (ptr + 8))) s
    else if type == madt_type_lapic_nmi
    then log_line (lapic_nmi_line (m (ptr + 2)) (m (ptr + 5))) s
    else s

-- `fuel` bounds the rounds of the loops: an entry of length 0 stops the walk.
unfoldable pub parse_entries : (fuel ptr end : ℕ) → Bytes → Madt → Run Madt
unfolding madt_entry
parse_entries zero ptr end m s = if ltb ptr end then out_of_fuel else ok s
parse_entries (suc fuel) ptr end m s = elim (ltb ptr end) [
  | true ↦ parse_entries fuel (ptr + m (ptr + 1)) end m (madt_entry m ptr s)
  | false ↦ ok s
]

-- An entry has a byte at least, so the length of the table is fuel enough for one that is well formed.
unfoldable pub madt_parse : Bytes → ℕ → Madt → Run Madt
unfolding parse_entries
madt_parse m madt s =
    parse_entries (word32 m (madt + 4)) (madt_entries madt) (madt_end m madt) m
      (record s { madt_table = madt })

unfoldable pub lapic_base_from : (fuel ptr end fallback : ℕ) → Bytes → Run ℕ
lapic_base_from zero ptr end fallback m = if ltb ptr end then out_of_fuel else ok fallback
lapic_base_from (suc fuel) ptr end fallback m = elim (ltb ptr end) [
  | true ↦ elim (m ptr == madt_type_lapic_override) [
    | true ↦ ok (word64 m (ptr + 4))
    | false ↦ lapic_base_from fuel (ptr + m (ptr + 1)) end fallback m
  ]
  | false ↦ ok fallback
]

unfoldable pub madt_get_lapic_base : Bytes → Madt → Run ℕ
unfolding lapic_base_from
madt_get_lapic_base m s =
    lapic_base_from (word32 m (s.madt_table + 4)) (madt_entries s.madt_table)
      (madt_end m s.madt_table) (word32 m (s.madt_table + 36)) m

-- The test of madt_get_lapic_id.
abbrev pub lapic_matches : Bytes → (ptr cpu_id : ℕ) → Bool
lapic_matches m ptr cpu_id =
    m ptr == madt_type_lapic && lapic_uid m ptr == cpu_id && bit_and (lapic_flags m ptr) 1 == 1

unfoldable pub lapic_id_from : (fuel ptr end cpu_id : ℕ) → Bytes → Run ℕ
lapic_id_from zero ptr end cpu_id m = if ltb ptr end then out_of_fuel else ok 0xFF
lapic_id_from (suc fuel) ptr end cpu_id m = elim (ltb ptr end) [
  | true ↦ elim (lapic_matches m ptr cpu_id) [
    | true ↦ ok (lapic_id m ptr)
    | false ↦ lapic_id_from fuel (ptr + m (ptr + 1)) end cpu_id m
  ]
  | false ↦ ok 0xFF
]

unfoldable pub madt_get_lapic_id : Bytes → (cpu_id : ℕ) → Madt → Run ℕ
unfolding lapic_id_from
madt_get_lapic_id m cpu_id s =
    lapic_id_from (word32 m (s.madt_table + 4)) (madt_entries s.madt_table)
      (madt_end m s.madt_table) cpu_id m

abbrev pub madt_get_cpu_count : Madt → ℕ
madt_get_cpu_count s = s.cpu_count

abbrev pub ioapic_matches : Bytes → (ptr id : ℕ) → Bool
ioapic_matches m ptr id = m ptr == madt_type_ioapic && ioapic_id m ptr == id

unfoldable pub ioapic_addr_from : (fuel ptr end id : ℕ) → Bytes → Run ℕ
ioapic_addr_from zero ptr end id m = if ltb ptr end then out_of_fuel else ok 0
ioapic_addr_from (suc fuel) ptr end id m = elim (ltb ptr end) [
  | true ↦ elim (ioapic_matches m ptr id) [
    | true ↦ ok (ioapic_addr m ptr)
    | false ↦ ioapic_addr_from fuel (ptr + m (ptr + 1)) end id m
  ]
  | false ↦ ok 0
]

unfoldable pub madt_get_ioapic_addr : Bytes → (id : ℕ) → Madt → Run ℕ
unfolding ioapic_addr_from
madt_get_ioapic_addr m id s =
    ioapic_addr_from (word32 m (s.madt_table + 4)) (madt_entries s.madt_table)
      (madt_end m s.madt_table) id m
