-- ===== src/Madt/Lookup.antt =====
-- The searches of drivers/madt.c, on the list of entries that the table holds.
use neko_os_c.Prelude.{
  ℕ, zero, suc, ◌+◌, ◌≤◌, ◌<◌, ◌≡◌, ap, ◌∙◌, Bool, true, false, ◌==◌, if◌then◌else◌, ltb, lt→ltb,
  Run, ok, List, [], ◌∷◌, bit_and_mask, arith,
}
use neko_os_c.Mem.{Bytes, word32, word64}
use neko_os_c.Madt.{
  Madt, madt_entries, madt_end, lapic_flags, lapic_id, lapic_matches, lapic_id_from,
  madt_get_lapic_id, lapic_base_from, madt_get_lapic_base, ioapic_addr, ioapic_matches,
  ioapic_addr_from, madt_get_ioapic_addr, madt_type_lapic_override,
}
use neko_os_c.Madt.Entries.{decode, Ics, Holds, done, more, base_in, id_in, ioapic_in}

-- A round of a search: it ends at the end of the table or at what it looks for.
abbrev round : (before found : Bool) → (answer none : ℕ) → Run ℕ → Run ℕ
round before found answer none rest = elim before [
  | true ↦ elim found [ true ↦ ok answer | false ↦ rest ]
  | false ↦ ok none
]

round_past :
    (found : Bool) (answer none : ℕ) (rest : Run ℕ) (a b : ℕ)
    → b ≤ a
    → round (ltb a b) found answer none rest ≡ ok none
round_past found answer none rest a b past = ground (arith, past)

round_before :
    (found : Bool) (answer none a b x : ℕ) (rest : Run ℕ)
    → a < b
    → rest ≡ ok x
    → round (ltb a b) found answer none rest ≡ ok (if found then answer else x)
round_before true answer none a b x rest before e =
    ap (λ t. round t true answer none rest) (lt→ltb a b before)
round_before false answer none a b x rest before e =
    ap (λ t. round t false answer none rest) (lt→ltb a b before) ∙ e

id_in-decode :
    (m : Bytes) (ptr cpu : ℕ) (es : List Ics)
    → (if lapic_matches m ptr cpu then lapic_id m ptr else id_in es cpu)
      ≡ id_in (decode m ptr ∷ es) cpu
id_in-decode m ptr cpu es = ground (arith, bit_and_mask 1 (lapic_flags m ptr))

id-Holds :
    (m : Bytes) (end cpu fuel ptr : ℕ) (es : List Ics)
    → Holds m end ptr es
    → end ≤ ptr + fuel
    → lapic_id_from fuel ptr end cpu m ≡ ok (id_in es cpu)
unfolding lapic_id_from
id-Holds m end cpu zero ptr [] (done _ past) enough = ground (arith, past)
id-Holds m end cpu (suc fuel) ptr [] (done _ past) enough =
    round_past (lapic_matches m ptr cpu) (lapic_id m ptr) 0xFF
      (lapic_id_from fuel (ptr + m (ptr + 1)) end cpu m) ptr end past
id-Holds m end cpu zero ptr _ (more _ es before _ rest) enough = absurd (omega arith)
id-Holds m end cpu (suc fuel) ptr _ (more _ es before some_bytes rest) enough =
    round_before (lapic_matches m ptr cpu) (lapic_id m ptr) 0xFF ptr end (id_in es cpu)
      (lapic_id_from fuel (ptr + m (ptr + 1)) end cpu m) before
      (id-Holds m end cpu fuel (ptr + m (ptr + 1)) es rest (omega (arith, some_bytes)))
    ∙ ap ok (id_in-decode m ptr cpu es)

base_in-decode :
    (m : Bytes) (ptr none : ℕ) (es : List Ics)
    → (if m ptr == madt_type_lapic_override then word64 m (ptr + 4) else base_in es none)
      ≡ base_in (decode m ptr ∷ es) none
base_in-decode m ptr none es = ground arith

base-Holds :
    (m : Bytes) (end none fuel ptr : ℕ) (es : List Ics)
    → Holds m end ptr es
    → end ≤ ptr + fuel
    → lapic_base_from fuel ptr end none m ≡ ok (base_in es none)
unfolding lapic_base_from
base-Holds m end none zero ptr [] (done _ past) enough = ground (arith, past)
base-Holds m end none (suc fuel) ptr [] (done _ past) enough =
    round_past (m ptr == madt_type_lapic_override) (word64 m (ptr + 4)) none
      (lapic_base_from fuel (ptr + m (ptr + 1)) end none m) ptr end past
base-Holds m end none zero ptr _ (more _ es before _ rest) enough = absurd (omega arith)
base-Holds m end none (suc fuel) ptr _ (more _ es before some_bytes rest) enough =
    round_before (m ptr == madt_type_lapic_override) (word64 m (ptr + 4)) none ptr end
      (base_in es none) (lapic_base_from fuel (ptr + m (ptr + 1)) end none m) before
      (base-Holds m end none fuel (ptr + m (ptr + 1)) es rest (omega (arith, some_bytes)))
    ∙ ap ok (base_in-decode m ptr none es)

ioapic_in-decode :
    (m : Bytes) (ptr id : ℕ) (es : List Ics)
    → (if ioapic_matches m ptr id then ioapic_addr m ptr else ioapic_in es id)
      ≡ ioapic_in (decode m ptr ∷ es) id
ioapic_in-decode m ptr id es = ground arith

ioapic-Holds :
    (m : Bytes) (end id fuel ptr : ℕ) (es : List Ics)
    → Holds m end ptr es
    → end ≤ ptr + fuel
    → ioapic_addr_from fuel ptr end id m ≡ ok (ioapic_in es id)
unfolding ioapic_addr_from
ioapic-Holds m end id zero ptr [] (done _ past) enough = ground (arith, past)
ioapic-Holds m end id (suc fuel) ptr [] (done _ past) enough =
    round_past (ioapic_matches m ptr id) (ioapic_addr m ptr) 0
      (ioapic_addr_from fuel (ptr + m (ptr + 1)) end id m) ptr end past
ioapic-Holds m end id zero ptr _ (more _ es before _ rest) enough = absurd (omega arith)
ioapic-Holds m end id (suc fuel) ptr _ (more _ es before some_bytes rest) enough =
    round_before (ioapic_matches m ptr id) (ioapic_addr m ptr) 0 ptr end (ioapic_in es id)
      (ioapic_addr_from fuel (ptr + m (ptr + 1)) end id m) before
      (ioapic-Holds m end id fuel (ptr + m (ptr + 1)) es rest (omega (arith, some_bytes)))
    ∙ ap ok (ioapic_in-decode m ptr id es)

-- On a table of entries that are not empty the searches return: the 64-bit address of the first override
-- or else the 32-bit one of the table's head; the APIC identifier of the first enabled processor with
-- the number or else 0xFF; the address of the first I/O controller with the identifier or else 0.
pub madt_get-Holds :
    (m : Bytes) (s : Madt) (es : List Ics)
    → Holds m (madt_end m s.madt_table) (madt_entries s.madt_table) es
    → (madt_get_lapic_base m s ≡ ok (base_in es (word32 m (s.madt_table + 36))))
      × ((cpu : ℕ) → madt_get_lapic_id m cpu s ≡ ok (id_in es cpu))
      × ((id : ℕ) → madt_get_ioapic_addr m id s ≡ ok (ioapic_in es id))
unfolding madt_get_lapic_base madt_get_lapic_id madt_get_ioapic_addr
madt_get-Holds m s es holds =
    let end = madt_end m s.madt_table in
    let ptr = madt_entries s.madt_table in
    let fuel = word32 m (s.madt_table + 4) in
    (
      base-Holds m end (word32 m (s.madt_table + 36)) fuel ptr es holds (omega arith),
      λ cpu. id-Holds m end cpu fuel ptr es holds (omega arith),
      λ id. ioapic-Holds m end id fuel ptr es holds (omega arith),
    )
