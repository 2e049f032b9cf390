-- ===== src/Madt/Parse.antt =====
-- madt_parse of drivers/madt.c, on the list of entries that the table holds.
use neko_os_c.Prelude.{
  ℕ, zero, suc, ◌+◌, ◌%◌, ◌^◌, ◌≤◌, ◌<◌, ◌≡◌, refl, sym, ap, ◌∙◌, ◌⊎◌, inl, inr, Bool, true, false,
  ◌==◌, if◌then◌else◌, lt→ltb, u32, ok, out_of_fuel, List, [], ◌∷◌, ◌++◌, bit_and_mask, arith,
}
use mathlib.Core.List.{append_assoc, append-nil}
use mathlib.Core.Path.{subst⁻¹}
use neko_os_c.Mem.{Bytes, word32}
use neko_os_c.Madt.{
  Madt, Line, lapic_line, ioapic_line, iso_line, lapic_nmi_line, log_line, madt_entry,
  parse_entries, madt_parse, madt_entries, madt_end, lapic_flags,
}
use neko_os_c.Madt.Entries.{
  Ics, local_apic, io_apic, source_override, local_nmi, address_override, other_ics, decode, Holds,
  done, more, Stuck, here, later, Holds-Stuck, enabled, lines_of,
}

-- The switch of madt_parse on an entry.
abbrev seen : Ics → Madt → Madt
seen (local_apic uid id flags) s =
    log_line (lapic_line uid id flags)
      (if flags % 2 == 1 then record s { cpu_count = u32 (s.cpu_count + 1) } else s)
seen (io_apic id addr gsi_base) s = log_line (ioapic_line id addr gsi_base) s
seen (source_override irq gsi flags) s = log_line (iso_line irq gsi flags) s
seen (local_nmi cpu lint) s = log_line (lapic_nmi_line cpu lint) s
seen (address_override addr) s = s
seen other_ics s = s

madt_entry-decode : (m : Bytes) (ptr : ℕ) (s : Madt) → madt_entry m ptr s ≡ seen (decode m ptr) s
unfolding madt_entry
madt_entry-decode m ptr s = ground (arith, bit_and_mask 1 (lapic_flags m ptr))

-- The state after a list of entries.
abbrev pub counted : List Ics → Madt → Madt
counted es s = record s {
  cpu_count = u32 (s.cpu_count + enabled es);
  logged = s.logged ++ lines_of es;
}

abbrev with_count : (count : ℕ) → List Line → Madt → Madt
with_count count lines s = record s { cpu_count = count; logged = lines }

counted_nil : (s : Madt) → s.cpu_count < 2 ^ 32 → counted [] s ≡ s
counted_nil s low =
    ap (λ c. with_count c (s.logged ++ []) s) (omega (arith, low))
    ∙ ap (λ l. with_count s.cpu_count l s) (append-nil s.logged)

-- A line logged before the others.
line_first :
    (l : Line) (es : List Ics) (s : Madt)
    → (s.logged ++ (l ∷ [])) ++ lines_of es ≡ s.logged ++ (l ∷ lines_of es)
line_first l es s = append_assoc s.logged (l ∷ []) (lines_of es)

count_if :
    (b : Bool) (c : ℕ) (l : Line) (s : Madt)
    → log_line l (if b then record s { cpu_count = c } else s)
      ≡ with_count (if b then c else s.cpu_count) (s.logged ++ (l ∷ [])) s
count_if true c l s = refl
count_if false c l s = refl

counted-seen :
    (e : Ics) (es : List Ics) (s : Madt)
    → s.cpu_count < 2 ^ 32
    → counted es (seen e s) ≡ counted (e ∷ es) s
counted-seen (local_apic uid id flags) es s low =
    ap (counted es) (count_if (flags % 2 == 1) (u32 (s.cpu_count + 1)) (lapic_line uid id flags) s)
    ∙ ap (λ c. with_count c ((s.logged ++ (lapic_line uid id flags ∷ [])) ++ lines_of es) s)
        (ground (arith, low))
    ∙ ap (λ l. with_count (u32 (s.cpu_count + (flags % 2 + enabled es))) l s)
        (line_first (lapic_line uid id flags) es s)
counted-seen (io_apic id addr gsi_base) es s low =
    ap (λ l. with_count (u32 (s.cpu_count + enabled es)) l s)
      (line_first (ioapic_line id addr gsi_base) es s)
counted-seen (source_override irq gsi flags) es s low =
    ap (λ l. with_count (u32 (s.cpu_count + enabled es)) l s)
      (line_first (iso_line irq gsi flags) es s)
counted-seen (local_nmi cpu lint) es s low =
    ap (λ l. with_count (u32 (s.cpu_count + enabled es)) l s)
      (line_first (lapic_nmi_line cpu lint) es s)
counted-seen (address_override addr) es s low = refl
counted-seen other_ics es s low = refl

seen-cpu_count : (e : Ics) (s : Madt) → s.cpu_count < 2 ^ 32 → (seen e s).cpu_count < 2 ^ 32
seen-cpu_count (local_apic uid id flags) s low = ground (arith, low)
seen-cpu_count (io_apic id addr gsi_base) s low = low
seen-cpu_count (source_override irq gsi flags) s low = low
seen-cpu_count (local_nmi cpu lint) s low = low
seen-cpu_count (address_override addr) s low = low
seen-cpu_count other_ics s low = low

parse_step :
    (fuel ptr end : ℕ) (m : Bytes) (s : Madt)
    → ptr < end
    → parse_entries (suc fuel) ptr end m s
      ≡ parse_entries fuel (ptr + m (ptr + 1)) end m (madt_entry m ptr s)
unfolding parse_entries
parse_step fuel ptr end m s before =
    ap
      (λ b. elim b [
        | true ↦ parse_entries fuel (ptr + m (ptr + 1)) end m (madt_entry m ptr s)
        | false ↦ ok s
      ])
      (lt→ltb ptr end before)

parse_done :
    (fuel ptr end : ℕ) (m : Bytes) (s : Madt) → end ≤ ptr → parse_entries fuel ptr end m s ≡ ok s
unfolding parse_entries
parse_done zero ptr end m s past = ground (arith, past)
parse_done (suc fuel) ptr end m s past = ground (arith, past)

parse-Holds :
    (m : Bytes) (end fuel ptr : ℕ) (es : List Ics) (s : Madt)
    → Holds m end ptr es
    → end ≤ ptr + fuel
    → s.cpu_count < 2 ^ 32
    → parse_entries fuel ptr end m s ≡ ok (counted es s)
parse-Holds m end fuel ptr [] s (done _ past) enough low =
    parse_done fuel ptr end m s past ∙ ap ok (sym (counted_nil s low))
parse-Holds m end zero ptr _ s (more _ es before _ rest) enough low = absurd (omega arith)
parse-Holds m end (suc fuel) ptr _ s (more _ es before some_bytes rest) enough low =
    let e = decode m ptr in
    parse_step fuel ptr end m s before
    ∙ ap (parse_entries fuel (ptr + m (ptr + 1)) end m) (madt_entry-decode m ptr s)
    ∙ parse-Holds m end fuel (ptr + m (ptr + 1)) es (seen e s) rest (omega (arith, some_bytes))
        (seen-cpu_count e s low)
    ∙ ap ok (counted-seen e es s low)

parse-Stuck :
    (fuel ptr end : ℕ) (m : Bytes) (s : Madt)
    → Stuck m end ptr
    → parse_entries fuel ptr end m s ≡ out_of_fuel
parse-Stuck zero ptr end m s (here _ before empty) = unfold parse_entries in ground (arith, before)
parse-Stuck zero ptr end m s (later _ before rest) = unfold parse_entries in ground (arith, before)
parse-Stuck (suc fuel) ptr end m s (here _ before empty) =
    parse_step fuel ptr end m s before
    ∙ parse-Stuck fuel (ptr + m (ptr + 1)) end m (madt_entry m ptr s)
        (subst⁻¹ (Stuck m end) (omega (arith, empty)) (here ptr before empty))
parse-Stuck (suc fuel) ptr end m s (later _ before rest) =
    parse_step fuel ptr end m s before
    ∙ parse-Stuck fuel (ptr + m (ptr + 1)) end m (madt_entry m ptr s) rest

-- madt_parse either finds a row of entries that are not empty up to the end of the table, and returns
-- having counted the enabled processors, modulo 2^32, and logged a line for each entry that has one, in
-- their order; or it comes to an entry of length 0 before the end, and then no number of rounds is
-- enough for its loop.
pub madt_parse-Holds :
    (m : Bytes) (madt : ℕ) (s : Madt)
    → s.cpu_count < 2 ^ 32
    → ((es : List Ics) × Holds m (madt_end m madt) (madt_entries madt) es
        × (madt_parse m madt s ≡ ok (counted es (record s { madt_table = madt }))))
      ⊎ (Stuck m (madt_end m madt) (madt_entries madt)
          × ((fuel : ℕ)
              → parse_entries fuel
                  (madt_entries madt)
                  (madt_end m madt)
                  m
                  (record s { madt_table = madt })
                ≡ out_of_fuel))
madt_parse-Holds m madt s low =
    elim (Holds-Stuck (word32 m (madt + 4)) m (madt_end m madt) (madt_entries madt) (omega arith)) [
      | inl (es, holds) ↦ inl (
        es,
        holds,
        unfold madt_parse in
            parse-Holds m (madt_end m madt) (word32 m (madt + 4)) (madt_entries madt) es
              (record s { madt_table = madt }) holds (omega arith) low,
      )
      | inr stuck ↦ inr (
        stuck,
        λ fuel.
            parse-Stuck fuel (madt_entries madt) (madt_end m madt) m
              (record s { madt_table = madt }) stuck,
      )
    ]

pub madt_parse_ok :
    (m : Bytes) (madt : ℕ) (es : List Ics) (s : Madt)
    → s.cpu_count < 2 ^ 32
    → Holds m (madt_end m madt) (madt_entries madt) es
    → madt_parse m madt s ≡ ok (counted es (record s { madt_table = madt }))
unfolding madt_parse
madt_parse_ok m madt es s low holds =
    parse-Holds m (madt_end m madt) (word32 m (madt + 4)) (madt_entries madt) es
      (record s { madt_table = madt }) holds (omega arith) low
