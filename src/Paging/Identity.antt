-- ===== src/Paging/Identity.antt =====
-- paging_init of drivers/paging.c: the regions that it maps are translated to themselves.
use neko_os_c.Prelude.{
  ℕ, ◌+◌, ◌-◌, ◌*◌, ◌/◌, ◌^◌, ◌≤◌, ◌<◌, ◌≡◌, ◌⊎◌, refl, ap, ◌∙◌, Run, ok, panic, then_ok,
  then_panic, List, [], ◌∷◌, arith, inl, inr, bit_or, some,
}
use mathlib.Core.Path.{subst⁻¹}
use neko_os_c.Paging.{Pages, page_present, page_writable, page_huge}
use neko_os_c.Paging.Areas.{map_areas}
use neko_os_c.Paging.Init.{Area, map_area}
use neko_os_c.Paging.Mapping.{Tables}
use neko_os_c.Paging.Region.{Region, map_region_2mb-Region}
use neko_os_c.Paging.Walk.{walk}

-- An address that is translated to itself, in a huge page that can be written.
abbrev pub Identical : Pages → ℕ → Type 0
Identical p v =
    walk 4 p.words p.pml4 v
    ≡ some (record {
      phys = v;
      level = 1;
      flags = bit_or (bit_or page_writable page_present) page_huge;
    })

-- The pages of 2 MiB that a region begins, and the addresses in them.
abbrev pub page_count : Area → ℕ
page_count a = (a.size + 0x1FFFFF) / 2 ^ 21

abbrev pub Within : Area → ℕ → Type 0
Within a v =
    (a.base / 2 ^ 21 ≤ v / 2 ^ 21) × (v / 2 ^ 21 < a.base / 2 ^ 21 + page_count a) × (v < 2 ^ 48)

abbrev pub Fitting : Area → Type 0
Fitting a = a.base + a.size ≤ 2 ^ 48 - 2 ^ 21

abbrev pub pages_of : List Area → ℕ
pages_of [] = 0
pages_of (a ∷ xs) = page_count a + pages_of xs

pub data AllFit : List Area → Type 0 where
  no_area : AllFit []
  fits_too : (a : Area) (xs : List Area) → Fitting a → AllFit xs → AllFit (a ∷ xs)

pub data Inside (v : ℕ) : List Area → Type 0 where
  first_area : (a : Area) (xs : List Area) → Within a v → Inside v (a ∷ xs)
  later_area : (a : Area) (xs : List Area) → Inside v xs → Inside v (a ∷ xs)

pub record Covered (p : Pages) (used : ℕ) (xs : List Area) (q : Pages) : Type 0 where
  pub now_used : ℕ
  pub grew : now_used ≤ used + pages_of xs * 2
  pub tables : Tables q q.pml4 now_used
  pub same_root : q.pml4 ≡ p.pml4
  pub covers : (v : ℕ) → Inside v xs → Identical q v
  pub keeps : (v : ℕ) → v < 2 ^ 48 → Identical p v → Identical q v

abbrev pub CoveredOutcome : (p : Pages) (used : ℕ) (xs : List Area) → Run Pages → Type 0
CoveredOutcome p used xs r =
    ((r ≡ panic) × (33 ≤ used + pages_of xs * 2)) ⊎ ((q : Pages) × (r ≡ ok q) × Covered p used xs q)

in_or_out :
    (a : Area) (v : ℕ)
    → ((a.base / 2 ^ 21 ≤ v / 2 ^ 21) × (v / 2 ^ 21 < a.base / 2 ^ 21 + page_count a))
      ⊎ ((v / 2 ^ 21 < a.base / 2 ^ 21) ⊎ (a.base / 2 ^ 21 + page_count a ≤ v / 2 ^ 21))
in_or_out a v = ground arith

Region-Identical :
    (p : Pages) (used : ℕ) (a : Area) (q : Pages)
    → Region p p.pml4 used 1 a.base a.base
        (bit_or (bit_or page_writable page_present) page_huge)
        (page_count a)
        q
    → (v : ℕ) → Within a v
    → Identical q v
Region-Identical p used a q r v (from, to, small) =
    ap (λ root. walk 4 q.words root v) r.same_root.0
    ∙ r.covered v (v / 2 ^ 21 - a.base / 2 ^ 21) small (omega (arith, from, to))
        (omega (arith, from))
    ∙ ap
        (λ b. some (record {
          phys = b;
          level = 1;
          flags = bit_or (bit_or page_writable page_present) page_huge;
        }))
        (omega (arith, from))

map_area-Covered :
    (p : Pages) (used : ℕ) (t : Tables p p.pml4 used) (a : Area)
    → Fitting a
    → CoveredOutcome p used (a ∷ []) (map_area a p)
unfolding map_area
map_area-Covered p used t a fits =
    elim (map_region_2mb-Region p p.pml4 used t a.base a.base a.size page_writable
      (fits, omega (arith, fits)) (omega arith)) [
        | inl (stops, full) ↦ inl (stops, omega (arith, full))
        | inr (q, goes, r) ↦ inr (
          q,
          goes,
          record {
            now_used = r.now_used;
            grew = omega (arith, r.grew);
            tables = subst⁻¹ (λ root. Tables q root r.now_used) r.same_root.0 r.tables;
            same_root = r.same_root.0;
            covers = λ v inside. elim inside [
              | first_area _ _ here ↦ Region-Identical p used a q r v here
              | later_area _ _ none ↦ elim none [ ]
            ];
            keeps = λ v small same. elim (in_or_out a v) [
              | inl (from, to) ↦ Region-Identical p used a q r v (from, to, small)
              | inr out ↦
                  ap (λ root. walk 4 q.words root v) r.same_root.0 ∙ r.elsewhere v small out ∙ same
            ];
          },
        )
      ]

cons-Covered :
    (p : Pages) (used : ℕ) (a : Area) (xs : List Area) (q q' : Pages)
    (c : Covered p used (a ∷ []) q)
    → Covered q c.now_used xs q'
    → Covered p used (a ∷ xs) q'
cons-Covered p used a xs q q' c d = record {
  now_used = d.now_used;
  grew = omega (arith, c.grew, d.grew);
  tables = d.tables;
  same_root = d.same_root ∙ c.same_root;
  covers = λ v inside. elim inside [
    | first_area _ _ here ↦ d.keeps v here.2 (c.covers v (first_area a [] here))
    | later_area _ _ later ↦ d.covers v later
  ];
  keeps = λ v small same. d.keeps v small (c.keeps v small same);
}

nil-Covered : (p : Pages) (used : ℕ) → Tables p p.pml4 used → Covered p used [] p
nil-Covered p used t = record {
  now_used = used;
  grew = omega arith;
  tables = t;
  same_root = refl;
  covers = λ v inside. elim inside [ ];
  keeps = λ v small same. same;
}

pub map_areas-Covered :
    (p : Pages) (used : ℕ) (t : Tables p p.pml4 used) (xs : List Area)
    → AllFit xs
    → CoveredOutcome p used xs (map_areas xs p)
map_areas-Covered p used t [] no_area = inr (p, refl, nil-Covered p used t)
map_areas-Covered p used t (a ∷ xs) (fits_too _ _ fits rest) =
    elim (map_area-Covered p used t a fits) [
      | inl (stops, full) ↦
          inl (then_panic (map_area a p) (map_areas xs) stops, omega (arith, full))
      | inr (q, goes, c) ↦ elim (map_areas-Covered q c.now_used c.tables xs rest) [
        | inl (stops, full) ↦
            inl (then_ok (map_area a p) q (map_areas xs) goes ∙ stops, omega (arith, full, c.grew))
        | inr (q', ends, d) ↦ inr (
          q',
          then_ok (map_area a p) q (map_areas xs) goes ∙ ends,
          cons-Covered p used a xs q q' c d,
        )
      ]
    ]
