-- ===== src/Multiboot/Rsdp.antt =====
-- get_acpi_rsdp of kernel/multiboot2.c: the search for the root pointer of ACPI.
use neko_os_c.Prelude.{
  ℕ, zero, suc, ◌+◌, ◌≤◌, ◌≡◌, ◌≢◌, refl, sym, ap, ◌∙◌, Bool, true, false, ◌==◌, if◌then◌else◌,
  Option, none, some, Run, ok, out_of_fuel, List, [], ◌∷◌, ◌++◌, Bool-cases, arith, inl, inr,
}
use mathlib.Core.List.{append_assoc, append-nil}
use neko_os_c.Mem.{Bytes}
use neko_os_c.Multiboot.Tags.{
  tag_type, next_tag, first_tag, total_size, mb2_tag_end, mb2_tag_acpi_v1, mb2_tag_acpi_v2, Listed,
  ended, followed, WithTags, Listed-le,
}

-- The pointer found, 0 when it is null, and the bytes that are logged for each tag of ACPI 1.0.
pub record Search : Type 0 where
  pub rsdp : ℕ
  pub logged : List (List ℕ)

-- The field `rsdp` of a tag.
abbrev pub rsdp_of : ℕ → ℕ
rsdp_of tag = tag + 8

abbrev pub raw_rsdp : Bytes → ℕ → List ℕ
raw_rsdp m a =
    m a ∷ m (a + 1) ∷ m (a + 2) ∷ m (a + 3) ∷ m (a + 4) ∷ m (a + 5) ∷ m (a + 6) ∷ m (a + 7) ∷ []

-- The second `if` of the loop.
abbrev pub note_v1 : Bytes → ℕ → Search → Search
note_v1 m tag s =
    if tag_type m tag == mb2_tag_acpi_v1
    then record { rsdp = rsdp_of tag; logged = s.logged ++ (raw_rsdp m (rsdp_of tag) ∷ []) }
    else s

-- `fuel` bounds the rounds of the loop.
unfoldable pub rsdp_from : (fuel tag : ℕ) → Bytes → Search → Run Search
rsdp_from zero tag m s = if tag_type m tag == mb2_tag_end then ok s else out_of_fuel
rsdp_from (suc fuel) tag m s = elim (tag_type m tag == mb2_tag_end) [
  | true ↦ ok s
  | false ↦ elim (tag_type m tag == mb2_tag_acpi_v2) [
    | true ↦ ok (record s { rsdp = rsdp_of tag })
    | false ↦ rsdp_from fuel (next_tag m tag) m (note_v1 m tag s)
  ]
]

-- A tag has 8 bytes at least, so the stated size is fuel enough for tags that lie in it.
unfoldable pub get_acpi_rsdp : Bytes → (info : ℕ) → Run Search
unfolding rsdp_from
get_acpi_rsdp m info =
    rsdp_from (total_size m info) (first_tag info) m (record { rsdp = 0; logged = [] })

-- The tags before the first one of ACPI 2.0, and that one.
abbrev pub before_v2 : Bytes → List ℕ → List ℕ
before_v2 m [] = []
before_v2 m (t ∷ ts) =
    let rest = before_v2 m ts in if tag_type m t == mb2_tag_acpi_v2 then [] else t ∷ rest

abbrev pub first_v2 : Bytes → List ℕ → Option ℕ
first_v2 m [] = none
first_v2 m (t ∷ ts) =
    let rest = first_v2 m ts in if tag_type m t == mb2_tag_acpi_v2 then some t else rest

-- Those of ACPI 1.0.
abbrev pub v1_tags : Bytes → List ℕ → List ℕ
v1_tags m [] = []
v1_tags m (t ∷ ts) =
    let rest = v1_tags m ts in if tag_type m t == mb2_tag_acpi_v1 then t ∷ rest else rest

abbrev pub last_of : List ℕ → (d : ℕ) → ℕ
last_of [] d = d
last_of (t ∷ ts) d = last_of ts (rsdp_of t)

abbrev pub raw_lines : Bytes → List ℕ → List (List ℕ)
raw_lines m [] = []
raw_lines m (t ∷ ts) = raw_rsdp m (rsdp_of t) ∷ raw_lines m ts

-- What a search finds that starts with a result and with lines.
abbrev pub found_in : Bytes → List ℕ → Search → Search
found_in m ts s =
    let v1 = v1_tags m (before_v2 m ts) in
    record {
      rsdp = elim (first_v2 m ts) [ some t ↦ rsdp_of t | none ↦ last_of v1 s.rsdp ];
      logged = s.logged ++ raw_lines m v1;
    }

found_nil : (m : Bytes) (s : Search) → found_in m [] s ≡ s
found_nil m s = ap (λ l. record s { logged = l }) (append-nil s.logged)

found_v2 :
    (m : Bytes) (t : ℕ) (ts : List ℕ) (s : Search)
    → (tag_type m t == mb2_tag_acpi_v2) ≡ true
    → found_in m (t ∷ ts) s ≡ record s { rsdp = rsdp_of t }
found_v2 m t ts s v2 =
    ap
      (λ b.
        let v1 = v1_tags m (if b then [] else t ∷ before_v2 m ts) in
        let first : Option ℕ = if b then some t else first_v2 m ts in
        record s {
          rsdp = elim first [ some u ↦ rsdp_of u | none ↦ last_of v1 s.rsdp ];
          logged = s.logged ++ raw_lines m v1;
        })
      v2
    ∙ ap (λ l. record s { rsdp = rsdp_of t; logged = l }) (append-nil s.logged)

-- A tag that the search passes.
found_later :
    (m : Bytes) (t : ℕ) (ts : List ℕ) (s : Search)
    → (tag_type m t == mb2_tag_acpi_v2) ≡ false
    → found_in m (t ∷ ts) s ≡ found_in m ts (note_v1 m t s)
found_later m t ts s other =
    ap
      (λ b.
        let v1 = v1_tags m (if b then [] else t ∷ before_v2 m ts) in
        let first : Option ℕ = if b then some t else first_v2 m ts in
        record s {
          rsdp = elim first [ some u ↦ rsdp_of u | none ↦ last_of v1 s.rsdp ];
          logged = s.logged ++ raw_lines m v1;
        })
      other
    ∙ passed (tag_type m t == mb2_tag_acpi_v1)
  where
    passed :
        (c : Bool)
        → record s {
          rsdp = elim (first_v2 m ts) [
            | some u ↦ rsdp_of u
            | none ↦
                last_of
                  (if c then t ∷ v1_tags m (before_v2 m ts) else v1_tags m (before_v2 m ts))
                  s.rsdp
          ];
          logged =
              s.logged
              ++ raw_lines m
                  (if c then t ∷ v1_tags m (before_v2 m ts) else v1_tags m (before_v2 m ts));
        }
          ≡ found_in m ts (
              if c
              then record { rsdp = rsdp_of t; logged = s.logged ++ (raw_rsdp m (rsdp_of t) ∷ []) }
              else s)
    passed true =
        ap (λ l. record (found_in m ts (record s { rsdp = rsdp_of t })) { logged = l })
          (sym (
            append_assoc s.logged (raw_rsdp m (rsdp_of t) ∷ [])
              (raw_lines m (v1_tags m (before_v2 m ts)))))
    passed false = refl

rsdp_ended :
    (fuel tag : ℕ) (m : Bytes) (s : Search)
    → tag_type m tag ≡ mb2_tag_end
    → rsdp_from fuel tag m s ≡ ok s
unfolding rsdp_from
rsdp_ended zero tag m s last = ground (arith, last)
rsdp_ended (suc fuel) tag m s last = ground (arith, last)

rsdp_step :
    (fuel tag : ℕ) (m : Bytes) (s : Search) (ts : List ℕ)
    → tag_type m tag ≢ mb2_tag_end
    → ((s' : Search) → rsdp_from fuel (next_tag m tag) m s' ≡ ok (found_in m ts s'))
    → rsdp_from (suc fuel) tag m s ≡ ok (found_in m (tag ∷ ts) s)
unfolding rsdp_from
rsdp_step fuel tag m s ts more rest =
    let open_tag : (tag_type m tag == mb2_tag_end) ≡ false = ground (arith, more) in
    let body : Bool → Bool → Run Search = λ b c. elim b [
      | true ↦ ok s
      | false ↦ elim c [
        | true ↦ ok (record s { rsdp = rsdp_of tag })
        | false ↦ rsdp_from fuel (next_tag m tag) m (note_v1 m tag s)
      ]
    ] in
    elim (Bool-cases (tag_type m tag == mb2_tag_acpi_v2)) [
      | inl v2 ↦
          ap (λ b. body b (tag_type m tag == mb2_tag_acpi_v2)) open_tag
          ∙ ap (body false) v2
          ∙ ap ok (sym (found_v2 m tag ts s v2))
      | inr other ↦
          ap (λ b. body b (tag_type m tag == mb2_tag_acpi_v2)) open_tag
          ∙ ap (body false) other
          ∙ rest (note_v1 m tag s)
          ∙ ap ok (sym (found_later m tag ts s other))
    ]

rsdp-Listed :
    (m : Bytes) (fin fuel tag : ℕ) (ts : List ℕ) (s : Search)
    → Listed m fin tag ts
    → fin ≤ tag + fuel
    → rsdp_from fuel tag m s ≡ ok (found_in m ts s)
rsdp-Listed m fin fuel tag [] s (ended last) enough =
    rsdp_ended fuel tag m s last ∙ ap ok (sym (found_nil m s))
rsdp-Listed m fin zero tag _ s (followed _ ts more on rest) enough =
    absurd (omega (arith, Listed-le m fin _ ts rest, on))
rsdp-Listed m fin (suc fuel) tag _ s (followed _ ts more on rest) enough =
    rsdp_step fuel tag m s ts more
      (λ s'. rsdp-Listed m fin fuel (next_tag m tag) ts s' rest (omega (arith, on)))

-- get_acpi_rsdp returns, for tags that are not empty and end within the stated size: the pointer in the
-- first tag of ACPI 2.0, else that in the last one of ACPI 1.0, else null; the bytes of each tag of ACPI
-- 1.0 before the first of ACPI 2.0 have been logged.
pub get_acpi_rsdp-found_in :
    (m : Bytes) (info : ℕ) (ts : List ℕ)
    → WithTags m info ts
    → get_acpi_rsdp m info ≡ ok (found_in m ts (record { rsdp = 0; logged = [] }))
unfolding get_acpi_rsdp
get_acpi_rsdp-found_in m info ts tags =
    rsdp-Listed m tags.fin (total_size m info) (first_tag info) ts
      (record { rsdp = 0; logged = [] }) tags.listed (omega (arith, tags.inside))
