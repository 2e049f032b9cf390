-- ===== src/Acpi/Tables.antt =====
-- acpi_parse_tables of drivers/acpi.c, on a list of tables with their signatures.
use neko_os_c.Prelude.{
  ℕ, suc, ◌+◌, ◌^◌, ◌<◌, ◌≡◌, ◌≢◌, refl, sym, ap, ◌∙◌, true, false, if_true, if_false, ok, then_ok,
  List, [], ◌∷◌, arith, length,
}
use neko_os_c.Acpi.{
  Acpi, Literals, found_line, apic_line, hpet_line, log_line, is_same, pass_apic, pass_hpet,
  handle_table, entry_address, tables_from, acpi_parse_tables, table_count, header_bytes,
}
use neko_os_c.Hpet.{hpet_parse}
use neko_os_c.Madt.{madt_entries, madt_end}
use neko_os_c.Madt.Entries.{Ics, Holds}
use neko_os_c.Madt.Parse.{counted, madt_parse_ok}
use neko_os_c.Mem.{Bytes, Sign, minus, same, plus, memcmp}
use neko_os_c.Mem.Copy.{Agree, Verdict, memcmp-Verdict}

-- The program's strings are two different ones.
abbrev pub Distinct : Literals → Bytes → Type 0
Distinct lits m = m lits.apic ≢ m lits.hpet

-- What a table is, by its signature: an interrupt controller table with its entries, a timer's, or one
-- that is passed over.
pub data Table : Type 0 where
  apic_table : List Ics → Table
  hpet_table : Table
  plain_table : Table

abbrev pub Signed : (literal : ℕ) → Bytes → (table : ℕ) → Type 0
Signed literal m table = Agree 4 table literal m

pub data Is (lits : Literals) (m : Bytes) (t : ℕ) : Table → Type 0 where
  is_apic :
      (es : List Ics)
      → Signed lits.apic m t
      → Holds m (madt_end m t) (madt_entries t) es
      → Is lits m t (apic_table es)
  is_hpet : Signed lits.hpet m t → Is lits m t hpet_table
  is_plain : (Signed lits.apic m t → ⊥) → (Signed lits.hpet m t → ⊥) → Is lits m t plain_table

-- The state after a table.
abbrev pub noted : (t : ℕ) → Table → Acpi → Acpi
noted t (apic_table es) s = record (log_line apic_line (log_line (found_line t) s)) {
  madt = counted es (record s.madt { madt_table = t });
}
noted t hpet_table s = record (log_line hpet_line (log_line (found_line t) s)) {
  hpet = hpet_parse t s.hpet;
}
noted t plain_table s = log_line (found_line t) s

same_of : (a b : ℕ) (m : Bytes) (sg : Sign) → Verdict a b 4 m sg → Agree 4 a b m → is_same sg ≡ true
same_of a b m same all agree = refl
same_of a b m minus (i, li, before, less) agree = absurd (omega (arith, agree i li, less))
same_of a b m plus (i, li, before, more) agree = absurd (omega (arith, agree i li, more))

other_of :
    (a b : ℕ) (m : Bytes) (sg : Sign)
    → Verdict a b 4 m sg
    → (Agree 4 a b m → ⊥)
    → is_same sg ≡ false
other_of a b m same all differ = absurd (differ all)
other_of a b m minus verdict differ = refl
other_of a b m plus verdict differ = refl

other_literal :
    (lits : Literals) (m : Bytes) (t : ℕ)
    → Distinct lits m
    → Signed lits.apic m t
    → Signed lits.hpet m t
    → ⊥
other_literal lits m t distinct a h =
    let first : (x : ℕ) → m x ≡ m (x + 0) = λ x. ap m (omega arith) in
    distinct (first lits.apic ∙ sym (a 0 (omega arith)) ∙ h 0 (omega arith) ∙ sym (first lits.hpet))

handle-noted :
    (lits : Literals) (m : Bytes) (t : ℕ) (k : Table) (s : Acpi)
    → Distinct lits m
    → s.madt.cpu_count < 2 ^ 32
    → Is lits m t k
    → handle_table lits m t s ≡ ok (noted t k s)
unfolding handle_table pass_apic pass_hpet
handle-noted lits m t _ s distinct low (is_apic es signed holds) =
    let v_apic = memcmp-Verdict t lits.apic 4 m in
    let v_hpet = memcmp-Verdict t lits.hpet 4 m in
    then_ok _ _ _ (
      if_true _ _ _ (same_of t lits.apic m (memcmp t lits.apic 4 m) v_apic signed)
      ∙ then_ok _ _ _ (madt_parse_ok m t es s.madt low holds))
    ∙ if_false _ _ _ (
        other_of t lits.hpet m (memcmp t lits.hpet 4 m) v_hpet
          (other_literal lits m t distinct signed))
handle-noted lits m t _ s distinct low (is_hpet signed) =
    let v_apic = memcmp-Verdict t lits.apic 4 m in
    let v_hpet = memcmp-Verdict t lits.hpet 4 m in
    then_ok _ _ _ (
      if_false _ _ _ (
        other_of t lits.apic m (memcmp t lits.apic 4 m) v_apic
          (λ a. other_literal lits m t distinct a signed)))
    ∙ if_true _ _ _ (same_of t lits.hpet m (memcmp t lits.hpet 4 m) v_hpet signed)
handle-noted lits m t _ s distinct low (is_plain not_apic not_hpet) =
    let v_apic = memcmp-Verdict t lits.apic 4 m in
    let v_hpet = memcmp-Verdict t lits.hpet 4 m in
    then_ok _ _ _ (if_false _ _ _ (other_of t lits.apic m (memcmp t lits.apic 4 m) v_apic not_apic))
    ∙ if_false _ _ _ (other_of t lits.hpet m (memcmp t lits.hpet 4 m) v_hpet not_hpet)

-- The entries from index `i` on hold the addresses of the tables.
pub data Entries (lits : Literals) (m : Bytes) (entries entry_size : ℕ)
    : (i : ℕ) → List (ℕ × Table) → Type 0 where
  no_entry : (i : ℕ) → Entries lits m entries entry_size i []
  entry :
      (i t : ℕ) (k : Table) (ts : List (ℕ × Table))
      → entry_address m entries i entry_size ≡ t
      → Is lits m t k
      → Entries lits m entries entry_size (suc i) ts
      → Entries lits m entries entry_size i ((t, k) ∷ ts)

abbrev pub noted_all : List (ℕ × Table) → Acpi → Acpi
noted_all [] s = s
noted_all ((t, k) ∷ ts) s = noted_all ts (noted t k s)

noted-cpu_count :
    (t : ℕ) (k : Table) (s : Acpi)
    → s.madt.cpu_count < 2 ^ 32
    → (noted t k s).madt.cpu_count < 2 ^ 32
noted-cpu_count t (apic_table es) s low = omega arith
noted-cpu_count t hpet_table s low = low
noted-cpu_count t plain_table s low = low

tables-Entries :
    (lits : Literals) (m : Bytes) (entries entry_size i : ℕ) (ts : List (ℕ × Table)) (s : Acpi)
    → Distinct lits m
    → s.madt.cpu_count < 2 ^ 32
    → Entries lits m entries entry_size i ts
    → tables_from (length ts) i lits m entries entry_size s ≡ ok (noted_all ts s)
unfolding tables_from
tables-Entries lits m entries entry_size i [] s distinct low (no_entry _) = refl
tables-Entries lits m entries entry_size i _ s distinct low (entry _ t k ts here is rest) =
    then_ok _ _ _
      (ap (λ a. handle_table lits m a s) here ∙ handle-noted lits m t k s distinct low is)
    ∙ tables-Entries lits m entries entry_size (suc i) ts (noted t k s) distinct
        (noted-cpu_count t k s low) rest

-- acpi_parse_tables, for a head with as many entries as it has room for, each the address of a table
-- whose interrupt controllers are well formed where it has that signature: it handles each table once,
-- in their order, counts the enabled processors of the interrupt controller tables, modulo 2^32, keeps
-- the last table of each of the two kinds, and passes over the others.
pub acpi_parse_tables-noted_all :
    (lits : Literals) (m : Bytes) (header entry_size : ℕ) (ts : List (ℕ × Table)) (s : Acpi)
    → Distinct lits m
    → s.madt.cpu_count < 2 ^ 32
    → table_count m header entry_size ≡ length ts
    → Entries lits m (header + header_bytes) entry_size 0 ts
    → acpi_parse_tables lits m header entry_size s ≡ ok (noted_all ts s)
unfolding acpi_parse_tables
acpi_parse_tables-noted_all lits m header entry_size ts s distinct low count entries =
    ap (λ n. tables_from n 0 lits m (header + header_bytes) entry_size s) count
    ∙ tables-Entries lits m (header + header_bytes) entry_size 0 ts s distinct low entries
