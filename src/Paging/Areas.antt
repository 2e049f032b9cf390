-- ===== src/Paging/Areas.antt =====
-- The regions that paging_init of drivers/paging.c maps, as a list.
use neko_os_c.Prelude.{
  ℕ, zero, suc, ◌+◌, ◌≤◌, ◌<◌, ◌≡◌, ◌≢◌, refl, sym, ap, ◌∙◌, true, false, ◌==◌, lt→ltb,
  if◌then◌else◌, if_true, if_false, Run, ok, ◌>>=◌, bind_assoc, bind_cong, List, [], ◌∷◌, ◌++◌,
  arith, Bool, Bool-cases, inl, inr,
}
use mathlib.Core.List.{append_assoc, append-nil}
use neko_os_c.Mem.{Bytes}
use neko_os_c.Multiboot.Tags.{tag_type, tag_size, next_tag, mb2_tag_end, mb2_tag_mmap}
use neko_os_c.Paging.{Pages}
use neko_os_c.Paging.Init.{
  Area, Progress, area_type, usable_area, map_area, map_entry, entries_from, map_tag, tags_from,
  first_entry, entry_size,
}

abbrev pub map_areas : List Area → Pages → Run Pages
map_areas [] p = ok p
map_areas (a ∷ xs) p = map_area a p >>= map_areas xs

pub map_areas-append :
    (xs ys : List Area) (p : Pages) → map_areas (xs ++ ys) p ≡ (map_areas xs p >>= map_areas ys)
map_areas-append [] ys p = refl
map_areas-append (a ∷ xs) ys p =
    bind_cong (map_area a p) (map_areas-append xs ys)
    ∙ sym (bind_assoc (map_area a p) (map_areas xs) (map_areas ys))

-- The entries of a memory map from an address on, up to its end.
pub data Rows (m : Bytes) (step end : ℕ) : ℕ → List ℕ → Type 0 where
  done : (entry : ℕ) → end ≤ entry → Rows m step end entry []
  row :
      (entry : ℕ) (es : List ℕ)
      → entry < end
      → Rows m step end (entry + step) es
      → Rows m step end entry (entry ∷ es)

-- Those that are usable memory.
abbrev pub usable : Bytes → List ℕ → List Area
usable m [] = []
usable m (e ∷ es) =
    let rest = usable m es in if area_type m e == 1 then usable_area m e ∷ rest else rest

-- The usable regions of the tags from an address on, up to the end tag at `fin`: no tag is empty, and
-- no memory map has entries of size 0.
pub data Regions (m : Bytes) (fin : ℕ) : ℕ → List Area → Type 0 where
  ended : tag_type m fin ≡ mb2_tag_end → Regions m fin fin []
  other :
      (tag : ℕ) (xs : List Area)
      → tag_type m tag ≢ mb2_tag_end
      → tag_type m tag ≢ mb2_tag_mmap
      → tag < next_tag m tag
      → Regions m fin (next_tag m tag) xs
      → Regions m fin tag xs
  memory_map :
      (tag : ℕ) (es : List ℕ) (xs : List Area)
      → tag_type m tag ≡ mb2_tag_mmap
      → tag < next_tag m tag
      → 0 < entry_size m tag
      → Rows m (entry_size m tag) (tag + tag_size m tag) (first_entry tag) es
      → Regions m fin (next_tag m tag) xs
      → Regions m fin tag (usable m es ++ xs)

-- The progress behind a list of regions.
abbrev pub all_mapped : List Area → Progress → Run Progress
all_mapped xs g = map_areas xs g.pages >>= λ q. ok (record { pages = q; logged = g.logged ++ xs })

all_mapped_nil : (g : Progress) → all_mapped [] g ≡ ok g
all_mapped_nil g = ap (λ l. ok (record g { logged = l })) (append-nil g.logged)

all_mapped-append :
    (xs ys : List Area) (g : Progress)
    → all_mapped (xs ++ ys) g ≡ (all_mapped xs g >>= all_mapped ys)
all_mapped-append xs ys g =
    ap (λ r. r >>= λ q. ok (record { pages = q; logged = g.logged ++ (xs ++ ys) }))
      (map_areas-append xs ys g.pages)
    ∙ bind_assoc (map_areas xs g.pages) (map_areas ys) _
    ∙ bind_cong (map_areas xs g.pages) (λ q.
      bind_cong (map_areas ys q)
        (λ r. ap (λ l. ok (record { pages = r; logged = l })) (sym (append_assoc g.logged xs ys))))
    ∙ sym (
        bind_assoc (map_areas xs g.pages) (λ q. ok (record { pages = q; logged = g.logged ++ xs }))
          (all_mapped ys))

map_entry-usable :
    (m : Bytes) (e : ℕ) (g : Progress) → map_entry m e g ≡ all_mapped (usable m (e ∷ [])) g
unfolding map_entry
map_entry-usable m e g = elim (Bool-cases (area_type m e == 1)) [
  | inl is_usable ↦
      if_true _ _ _ is_usable
      ∙ sym (
          bind_assoc (map_area (usable_area m e) g.pages) ok
            (λ q. ok (record { pages = q; logged = g.logged ++ (usable_area m e ∷ []) })))
      ∙ ap (λ xs. all_mapped xs g)
          (sym (if_true (area_type m e == 1) (usable_area m e ∷ []) [] is_usable))
  | inr is_not ↦
      if_false _ _ _ is_not
      ∙ sym (all_mapped_nil g)
      ∙ ap (λ xs. all_mapped xs g)
          (sym (if_false (area_type m e == 1) (usable_area m e ∷ []) [] is_not))
]

usable_cons :
    (m : Bytes) (e : ℕ) (es : List ℕ) → usable m (e ∷ es) ≡ usable m (e ∷ []) ++ usable m es
usable_cons m e es = elim (Bool-cases (area_type m e == 1)) [
  | inl is_usable ↦
      if_true _ _ _ is_usable
      ∙ ap (λ xs. xs ++ usable m es)
          (sym (if_true (area_type m e == 1) (usable_area m e ∷ []) [] is_usable))
  | inr is_not ↦
      if_false _ _ _ is_not
      ∙ ap (λ xs. xs ++ usable m es)
          (sym (if_false (area_type m e == 1) (usable_area m e ∷ []) [] is_not))
]

entries-Rows :
    (m : Bytes) (step end fuel entry : ℕ) (es : List ℕ) (g : Progress)
    → 0 < step
    → Rows m step end entry es
    → end ≤ entry + fuel
    → entries_from fuel entry end step m g ≡ all_mapped (usable m es) g
unfolding entries_from
entries-Rows m step end zero entry [] g some_step (done _ past) enough =
    ground (arith, past) ∙ sym (all_mapped_nil g)
entries-Rows m step end (suc fuel) entry [] g some_step (done _ past) enough =
    ground (arith, past) ∙ sym (all_mapped_nil g)
entries-Rows m step end zero entry _ g some_step (row _ es before rest) enough =
    absurd (omega (arith, before, enough))
entries-Rows m step end (suc fuel) entry _ g some_step (row _ es before rest) enough =
    let body : Bool → Run Progress = λ b. elim b [
      | true ↦ map_entry m entry g >>= entries_from fuel (entry + step) end step m
      | false ↦ ok g
    ] in
    ap body (lt→ltb entry end before)
    ∙ ap (λ r. r >>= entries_from fuel (entry + step) end step m) (map_entry-usable m entry g)
    ∙ bind_cong (all_mapped (usable m (entry ∷ [])) g) (λ h.
      entries-Rows m step end fuel (entry + step) es h some_step rest
        (omega (arith, enough, some_step)))
    ∙ sym (all_mapped-append (usable m (entry ∷ [])) (usable m es) g)
    ∙ ap (λ xs. all_mapped xs g) (sym (usable_cons m entry es))

pub Regions-le : (m : Bytes) (fin tag : ℕ) (xs : List Area) → Regions m fin tag xs → tag ≤ fin
Regions-le m fin tag _ (ended last) = omega arith
Regions-le m fin tag _ (other _ xs more plain on rest) =
    omega (arith, on, Regions-le m fin (next_tag m tag) xs rest)
Regions-le m fin tag _ (memory_map _ es xs here on some_step rows rest) =
    omega (arith, on, Regions-le m fin (next_tag m tag) xs rest)

tags_ended :
    (fuel tag : ℕ) (m : Bytes) (g : Progress)
    → tag_type m tag ≡ mb2_tag_end
    → tags_from fuel tag m g ≡ ok g
unfolding tags_from
tags_ended zero tag m g last = ground (arith, last)
tags_ended (suc fuel) tag m g last = ground (arith, last)

tags_step :
    (fuel tag : ℕ) (m : Bytes) (g : Progress) (xs ys : List Area)
    → tag_type m tag ≢ mb2_tag_end
    → map_tag m tag g ≡ all_mapped xs g
    → ((h : Progress) → tags_from fuel (next_tag m tag) m h ≡ all_mapped ys h)
    → tags_from (suc fuel) tag m g ≡ all_mapped (xs ++ ys) g
unfolding tags_from
tags_step fuel tag m g xs ys more here rest =
    let body : Bool → Run Progress =
      λ b. elim b [ true ↦ ok g | false ↦ map_tag m tag g >>= tags_from fuel (next_tag m tag) m ] in
    let test : (tag_type m tag == mb2_tag_end) ≡ false = ground (arith, more) in
    ap body test
    ∙ ap (λ r. r >>= tags_from fuel (next_tag m tag) m) here
    ∙ bind_cong (all_mapped xs g) rest
    ∙ sym (all_mapped-append xs ys g)

map_tag_plain :
    (m : Bytes) (tag : ℕ) (g : Progress)
    → tag_type m tag ≢ mb2_tag_mmap
    → map_tag m tag g ≡ all_mapped [] g
unfolding map_tag
map_tag_plain m tag g plain =
    let test : (tag_type m tag == mb2_tag_mmap) ≡ false = ground (arith, plain) in
    if_false _ _ _ test ∙ sym (all_mapped_nil g)

map_tag-Rows :
    (m : Bytes) (tag : ℕ) (es : List ℕ) (g : Progress)
    → tag_type m tag ≡ mb2_tag_mmap
    → 0 < entry_size m tag
    → Rows m (entry_size m tag) (tag + tag_size m tag) (first_entry tag) es
    → map_tag m tag g ≡ all_mapped (usable m es) g
unfolding map_tag
map_tag-Rows m tag es g here some_step rows =
    let test : (tag_type m tag == mb2_tag_mmap) ≡ true = ground (arith, here) in
    if_true _ _ _ test
    ∙ entries-Rows m (entry_size m tag) (tag + tag_size m tag) (tag_size m tag) (first_entry tag) es
        g some_step rows (omega arith)

-- The walk over the tags maps the usable regions in their order.
pub tags-Regions :
    (m : Bytes) (fin fuel tag : ℕ) (xs : List Area) (g : Progress)
    → Regions m fin tag xs
    → fin ≤ tag + fuel
    → tags_from fuel tag m g ≡ all_mapped xs g
tags-Regions m fin fuel tag _ g (ended last) enough =
    tags_ended fuel tag m g last ∙ sym (all_mapped_nil g)
tags-Regions m fin zero tag _ g (other _ xs more plain on rest) enough =
    absurd (omega (arith, on, enough, Regions-le m fin (next_tag m tag) xs rest))
tags-Regions m fin zero tag _ g (memory_map _ es xs here on some_step rows rest) enough =
    absurd (omega (arith, on, enough, Regions-le m fin (next_tag m tag) xs rest))
tags-Regions m fin (suc fuel) tag _ g (other _ xs more plain on rest) enough =
    tags_step fuel tag m g [] xs more (map_tag_plain m tag g plain)
      (λ h. tags-Regions m fin fuel (next_tag m tag) xs h rest (omega (arith, on, enough)))
tags-Regions m fin (suc fuel) tag _ g (memory_map _ es xs here on some_step rows rest) enough =
    tags_step fuel tag m g (usable m es) xs (λ e. absurd (omega (arith, e, here)))
      (map_tag-Rows m tag es g here some_step rows)
      (λ h. tags-Regions m fin fuel (next_tag m tag) xs h rest (omega (arith, on, enough)))
