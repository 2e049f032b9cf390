-- ===== src/Paging/Maps.antt =====
-- What map_page_4kb and map_page_2mb of drivers/paging.c do to the translation.
use neko_os_c.Prelude.{
  ℕ, zero, suc, ◌+◌, ◌*◌, ◌/◌, ◌%◌, ◌^◌, ◌≤◌, ◌<◌, ◌≡◌, ◌⊎◌, inl, inr, refl, sym, ap, ◌∙◌, ok,
  panic, Run, then_ok, then_panic, arith, clear_low, bit_or, bit_or_fields, bit_or_bit, some, ◌||◌,
  ◌==◌, true,
}
use neko_os_c.Mem.{poke}
use neko_os_c.Paging.{Pages, next_table, map_page_4kb, map_page_2mb, page_present, page_huge}
use neko_os_c.Paging.Agree.{walk_page}
use neko_os_c.Paging.Mapping.{Tables, Mapped, leaf-here, leaf-elsewhere, Way-Goes, upper-Goes}
use neko_os_c.Paging.Tree.{Shape, Linked, unused, huge, child, nth_table, nth_entry}
use neko_os_c.Paging.Next.{state}
use neko_os_c.Paging.Walk.{Page, span, index, walk}
use neko_os_c.Paging.Way.{Way, start-Way}
use neko_os_c.Paging.Write.{write_entry, write-Tree}

-- The entries that the two functions write.
abbrev pub entry_4kb : (phys flags : ℕ) → ℕ
entry_4kb phys flags = bit_or (bit_or (clear_low 12 phys) flags) page_present

abbrev pub entry_2mb : (phys flags : ℕ) → ℕ
entry_2mb phys flags = bit_or (bit_or (bit_or (clear_low 21 phys) flags) page_present) page_huge

-- What the processor reads in an entry of level `suc l`.
pub record Reads (l phys flags e : ℕ) : Type 0 where
  pub on : e % 2 ≡ 1
  pub last : (l == 0 || e / 128 % 2 == 1) ≡ true
  pub base : e % 2 ^ 52 / span l * span l ≡ phys / span l * span l
  pub low : e % 4096 ≡ flags

Reads-small :
    (phys flags : ℕ)
    → phys < 2 ^ 52
    → flags < 2 ^ 12
    → Reads 0 phys (bit_or flags page_present) (entry_4kb phys flags)
Reads-small phys flags lp lf =
    let fields = bit_or_fields 12 (phys / 2 ^ 12) flags lf in
    let set = bit_or_bit 0 (bit_or (clear_low 12 phys) flags) in
    record {
      on = omega (arith, set);
      last = refl;
      base = omega (arith, set, fields, lp, lf);
      low = omega (arith, set, fields, lf, bit_or_bit 0 flags);
    }

Reads-large :
    (phys flags : ℕ)
    → phys < 2 ^ 52
    → flags < 2 ^ 12
    → Reads 1 phys (bit_or (bit_or flags page_present) page_huge) (entry_2mb phys flags)
Reads-large phys flags lp lf =
    let fields = bit_or_fields 21 (phys / 2 ^ 21) flags (omega (arith, lf)) in
    let set = bit_or_bit 0 (bit_or (clear_low 21 phys) flags) in
    let big = bit_or_bit 7 (bit_or (bit_or (clear_low 21 phys) flags) page_present) in
    let e : bit_or (bit_or (clear_low 21 phys) flags) page_present
        ≡ clear_low 21 phys + bit_or flags page_present =
      omega (arith, set, fields, lf, bit_or_bit 0 flags) in
    let b : entry_2mb phys flags / 128 % 2 ≡ 1 = omega (arith, big) in
    record {
      on = omega (arith, big, set);
      last = ground (arith, b);
      base = omega (arith, big, e, lp, lf, bit_or_bit 0 flags);
      low = omega (arith, big, e, lf, bit_or_bit 7 (bit_or flags page_present));
    }

huge_or_zero :
    (s : Shape) (pool used k i l e l0 phys flags : ℕ)
    → l ≤ 1
    → Reads l phys flags e
    → suc l ≡ suc (suc l0)
    → Linked s pool used k i l0 e
huge_or_zero s pool used k i zero e l0 phys flags low r lev = absurd (omega (arith, lev))
huge_or_zero s pool used k i (suc l) e l0 phys flags low r lev =
    huge r.on (ground (arith, r.last)) (omega (arith, low, lev))

-- The entry is written where the way ends.
leaf-Mapped :
    (p : Pages) (root used : ℕ) (t : Tables p root used) (virt l phys flags e : ℕ)
    → l ≤ 1
    → (w : Way p t.shape t.tree t.nth virt l) → Reads l phys flags e
    → Mapped p root used l virt phys flags
        (write_entry w.nth (index l virt) e (state p w.offset w.words))
leaf-Mapped p root used t virt l phys flags e low w r =
    let (lr, pr) = w.kept_shape t.nth (omega (arith, t.within, t.count)) in
    let words = poke w.words (nth_entry p.pool w.nth (index l virt)) e in
    let tree =
      write-Tree (state p w.offset w.words) w.shape w.now w.nth (index l virt) e w.within
        (omega arith)
        (λ l0 lev.
          huge_or_zero w.shape p.pool w.now.used w.nth (index l virt) l e l0 phys flags low r
            (sym w.level_is ∙ lev)) in
    record {
      now_used = w.now.used;
      grew = omega (arith, w.grew, t.count);
      kept_used = omega (arith, w.kept_used, t.count);
      tables = record {
        shape = w.shape;
        tree = tree;
        count = omega (arith, tree.offset_is, w.now.offset_is);
        nth = t.nth;
        within = omega (arith, t.within, t.count, w.kept_used);
        is_nth = t.is_nth;
        level_is = lr ∙ t.level_is;
        prefix_is = pr ∙ t.prefix_is;
      };
      same_root = (refl, refl);
      here = λ v here.
          ap (λ a. walk 4 words a v) t.is_nth
          ∙ leaf-here p t.shape t.tree t.nth virt l w e v here r.on r.last
          ∙ ap (λ b. some (record { phys = b + v % span l; level = l; flags = e % 4096 })) r.base
          ∙ ap
              (λ f.
                some (record { phys = phys / span l * span l + v % span l; level = l; flags = f }))
              r.low;
      elsewhere = λ v small other.
          ap (λ a. walk 4 words a v) t.is_nth
          ∙ leaf-elsewhere p t.shape t.tree t.nth virt l w e v 4 t.nth
              (omega (arith, t.within, t.count)) t.level_is (t.prefix_is ∙ omega (arith, small))
              other
          ∙ sym (ap (λ a. walk 4 p.words a v) t.is_nth);
    }

-- The way starts at the top table, where the two functions start.
top-Way :
    (p : Pages) (root used : ℕ) (t : Tables p root used) (virt : ℕ)
    → virt < 2 ^ 48
    → (w : Way p t.shape t.tree t.nth virt 3) × (next_table root (index 3 virt) p
        ≡ next_table (nth_table p.pool w.nth) (index 3 virt) (state p w.offset w.words))
top-Way p root used t virt lv =
    let (w, (same, top)) =
      start-Way p t.shape t.tree t.nth virt (omega (arith, t.within, t.count)) t.level_is
        (t.prefix_is ∙ omega (arith, lv)) in
    (
      w,
      ap (λ a. next_table a (index 3 virt) p) (t.is_nth ∙ ap (nth_table p.pool) top)
          ∙ ap (next_table (nth_table p.pool w.nth) (index 3 virt)) same,
    )

-- Either the pool ends, or the page is mapped.
abbrev pub Outcome : (p : Pages) (root used l virt phys flags : ℕ) → Run Pages → Type 0
Outcome p root used l virt phys flags r =
    ((r ≡ panic) × (30 + l ≤ used))
    ⊎ ((q : Pages) × (r ≡ ok q) × Mapped p root used l virt phys flags q)

-- map_page_2mb, on a tree of tables and addresses that the processor can translate, panics only when
-- less than two tables of the pool are free; else every address of the page of 2 MiB at `virt` is
-- translated to the one at `phys`, huge and present with the flags given, every other address is
-- translated as before, and the tables are a tree again with at most two more.
pub map_page_2mb-Mapped :
    (p : Pages) (root used : ℕ) (t : Tables p root used) (virt phys flags : ℕ)
    → virt < 2 ^ 48
    → phys < 2 ^ 52
    → flags < 2 ^ 12
    → Outcome p root used 1 virt phys
        (bit_or (bit_or flags page_present) page_huge)
        (map_page_2mb root virt phys flags p)
unfolding map_page_2mb
map_page_2mb-Mapped p root used t virt phys flags lv lp lf =
    let (w3, first) = top-Way p root used t virt lv in
    elim (upper-Goes p t.shape t.tree t.nth virt 1 w3) [
      | inl (stops, full) ↦
          inl (then_panic _ _ (first ∙ stops), omega (arith, w3.grew, full, t.count))
      | inr (w2, second) ↦ elim (upper-Goes p t.shape t.tree t.nth virt 0 w2) [
        | inl (stops, full) ↦ inl (
          then_ok _ _ _ (first ∙ second) ∙ then_panic _ _ stops,
          omega (arith, w2.grew, full, t.count),
        )
        | inr (w1, third) ↦ inr (
          _,
          then_ok _ _ _ (first ∙ second) ∙ then_ok _ _ _ third,
          leaf-Mapped p root used t virt 1 phys _ (entry_2mb phys flags) (omega arith) w1
              (Reads-large phys flags lp lf),
        )
      ]
    ]

-- Where the walk for an address finds no huge page, the last entry on its way is none.
small_lowest :
    (p : Pages) (root used : ℕ) (t : Tables p root used) (virt e : ℕ)
    → (w : Way p t.shape t.tree t.nth virt 1) → virt < 2 ^ 48
    → ((g : Page) → walk 4 p.words root virt ≡ some g → g.level ≡ 0)
    → w.words (nth_entry p.pool w.nth (index 1 virt)) ≡ e
    → Linked w.shape p.pool w.now.used w.nth (index 1 virt) 0 e
    → e % 2 ≡ 1
    → e / 128 % 2 ≡ 0
small_lowest p root used t virt e w lv small here (unused off) on = absurd (omega (arith, on, off))
small_lowest p root used t virt e w lv small here (child c _ flat is) on = flat
small_lowest p root used t virt e w lv small here (huge _ big low) on =
    let found : walk 4 p.words root virt ≡ some _ =
      ap (λ a. walk 4 p.words a virt) t.is_nth
      ∙ sym (
          w.kept_walks virt 4 t.nth (omega (arith, t.within, t.count)) t.level_is
            (t.prefix_is ∙ omega (arith, lv)))
      ∙ w.passes w.words virt refl (λ k i old li high. refl)
      ∙ walk_page 1 w.words (nth_table p.pool w.nth) virt (ap (λ f. f % 2) here ∙ on)
          (ap (λ f. 1 == 0 || f / 128 % 2 == 1) here ∙ ground (arith, big)) in
    absurd (omega (arith, small _ found))

-- map_page_4kb, on a tree of tables and addresses that the processor can translate, where no huge page
-- is mapped at `virt`, panics only when less than three tables of the pool are free; else every address
-- of the page of 4 KiB at `virt` is translated to the one at `phys`, present with the flags given, every
-- other address is translated as before, and the tables are a tree again with at most three more.
pub map_page_4kb-Mapped :
    (p : Pages) (root used : ℕ) (t : Tables p root used) (virt phys flags : ℕ)
    → virt < 2 ^ 48
    → phys < 2 ^ 52
    → flags < 2 ^ 12
    → ((g : Page) → walk 4 p.words root virt ≡ some g → g.level ≡ 0)
    → Outcome p root used 0 virt phys
        (bit_or flags page_present)
        (map_page_4kb root virt phys flags p)
unfolding map_page_4kb
map_page_4kb-Mapped p root used t virt phys flags lv lp lf small =
    let (w3, first) = top-Way p root used t virt lv in
    elim (upper-Goes p t.shape t.tree t.nth virt 1 w3) [
      | inl (stops, full) ↦
          inl (then_panic _ _ (first ∙ stops), omega (arith, w3.grew, full, t.count))
      | inr (w2, second) ↦ elim (upper-Goes p t.shape t.tree t.nth virt 0 w2) [
        | inl (stops, full) ↦ inl (
          then_ok _ _ _ (first ∙ second) ∙ then_panic _ _ stops,
          omega (arith, w2.grew, full, t.count),
        )
        | inr (w1, third) ↦
            elim (Way-Goes p t.shape t.tree t.nth virt 0 w1 (
              small_lowest p root used t virt _ w1 lv small refl
                (w1.now.links w1.nth (index 1 virt) 0 w1.within (omega arith) w1.level_is))) [
                  | inl (stops, full) ↦ inl (
                    then_ok _ _ _ (first ∙ second) ∙ then_ok _ _ _ third ∙ then_panic _ _ stops,
                    omega (arith, w1.grew, full, t.count),
                  )
                  | inr (w0, fourth) ↦ inr (
                    _,
                    then_ok _ _ _ (first ∙ second) ∙ then_ok _ _ _ third ∙ then_ok _ _ _ fourth,
                    leaf-Mapped p root used t virt 0 phys _ (entry_4kb phys flags) (omega arith) w0
                        (Reads-small phys flags lp lf),
                  )
                ]
      ]
    ]
