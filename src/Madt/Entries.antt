-- ===== src/Madt/Entries.antt =====
-- The entries that the table of drivers/madt.c holds, as a list.
use neko_os_c.Prelude.{
  ℕ, zero, suc, ◌+◌, ◌%◌, ◌≤◌, ◌<◌, ◌≡◌, ◌⊎◌, inl, inr, ◌==◌, ◌&&◌, if◌then◌else◌, List, [], ◌∷◌,
  arith,
}
use neko_os_c.Mem.{Bytes, word16, word32, word64}
use neko_os_c.Madt.{
  Line, lapic_line, ioapic_line, iso_line, lapic_nmi_line, madt_type_lapic, madt_type_ioapic,
  madt_type_iso, madt_type_lapic_nmi, madt_type_lapic_override, lapic_uid, lapic_id, lapic_flags,
  ioapic_id, ioapic_addr,
}

pub data Ics : Type 0 where
  local_apic : (uid id flags : ℕ) → Ics
  io_apic : (id addr gsi_base : ℕ) → Ics
  source_override : (irq gsi flags : ℕ) → Ics
  local_nmi : (cpu lint : ℕ) → Ics
  address_override : (addr : ℕ) → Ics
  other_ics : Ics

abbrev pub decode : Bytes → ℕ → Ics
decode m ptr =
    let type = m ptr in
    if type == madt_type_lapic
    then local_apic (lapic_uid m ptr) (lapic_id m ptr) (lapic_flags m ptr)
    else if type == madt_type_ioapic
    then io_apic (ioapic_id m ptr) (ioapic_addr m ptr) (word32 m (ptr + 8))
    else if type == madt_type_iso
    then source_override (m (ptr + 3)) (word32 m (ptr + 4)) (word16 m (ptr + 8))
    else if type == madt_type_lapic_nmi
    then local_nmi (m (ptr + 2)) (m (ptr + 5))
    else if type == madt_type_lapic_override
    then address_override (word64 m (ptr + 4))
    else other_ics

-- The memory from an address up to `end` is a row of entries, none of which is empty.
pub data Holds (m : Bytes) (end : ℕ) : ℕ → List Ics → Type 0 where
  done : (ptr : ℕ) → end ≤ ptr → Holds m end ptr []
  more :
      (ptr : ℕ) (es : List Ics)
      → ptr < end
      → 0 < m (ptr + 1)
      → Holds m end (ptr + m (ptr + 1)) es
      → Holds m end ptr (decode m ptr ∷ es)

-- There is an entry of length 0 before `end`.
pub data Stuck (m : Bytes) (end : ℕ) : ℕ → Type 0 where
  here : (ptr : ℕ) → ptr < end → m (ptr + 1) ≡ 0 → Stuck m end ptr
  later : (ptr : ℕ) → ptr < end → Stuck m end (ptr + m (ptr + 1)) → Stuck m end ptr

end_or_less : (a b : ℕ) → (b ≤ a) ⊎ (a < b)
end_or_less a b = ground arith

zero_or_more : (n : ℕ) → (n ≡ 0) ⊎ (0 < n)
zero_or_more n = ground arith

pub Holds-Stuck :
    (fuel : ℕ) (m : Bytes) (end ptr : ℕ)
    → end ≤ ptr + fuel
    → ((es : List Ics) × Holds m end ptr es) ⊎ Stuck m end ptr
Holds-Stuck zero m end ptr enough = inl ([], done ptr (omega arith))
Holds-Stuck (suc fuel) m end ptr enough = elim (end_or_less ptr end) [
  | inl past ↦ inl ([], done ptr past)
  | inr before ↦ elim (zero_or_more (m (ptr + 1))) [
    | inl empty ↦ inr (here ptr before empty)
    | inr some_bytes ↦
        elim (Holds-Stuck fuel m end (ptr + m (ptr + 1)) (omega (arith, some_bytes))) [
          | inl (es, rest) ↦ inl (decode m ptr ∷ es, more ptr es before some_bytes rest)
          | inr stuck ↦ inr (later ptr before stuck)
        ]
  ]
]

-- The processors that the firmware lists as enabled.
abbrev pub enabled : List Ics → ℕ
enabled [] = 0
enabled (local_apic uid id flags ∷ es) = flags % 2 + enabled es
enabled (_ ∷ es) = enabled es

abbrev pub lines_of : List Ics → List Line
lines_of [] = []
lines_of (local_apic uid id flags ∷ es) = lapic_line uid id flags ∷ lines_of es
lines_of (io_apic id addr gsi_base ∷ es) = ioapic_line id addr gsi_base ∷ lines_of es
lines_of (source_override irq gsi flags ∷ es) = iso_line irq gsi flags ∷ lines_of es
lines_of (local_nmi cpu lint ∷ es) = lapic_nmi_line cpu lint ∷ lines_of es
lines_of (address_override addr ∷ es) = lines_of es
lines_of (other_ics ∷ es) = lines_of es

-- The first override of the address of the local controllers, the identifier of the first enabled
-- processor with a number, and the address of the first I/O controller with an identifier.
abbrev pub base_in : List Ics → (fallback : ℕ) → ℕ
base_in [] fallback = fallback
base_in (address_override addr ∷ es) fallback = addr
base_in (_ ∷ es) fallback = base_in es fallback

abbrev pub id_in : List Ics → (cpu : ℕ) → ℕ
id_in [] cpu = 0xFF
id_in (local_apic uid id flags ∷ es) cpu =
    let rest = id_in es cpu in if uid == cpu && flags % 2 == 1 then id else rest
id_in (_ ∷ es) cpu = id_in es cpu

abbrev pub ioapic_in : List Ics → (wanted : ℕ) → ℕ
ioapic_in [] wanted = 0
ioapic_in (io_apic id addr gsi_base ∷ es) wanted =
    let rest = ioapic_in es wanted in if id == wanted then addr else rest
ioapic_in (_ ∷ es) wanted = ioapic_in es wanted
