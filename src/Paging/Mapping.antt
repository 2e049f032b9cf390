-- ===== src/Paging/Mapping.antt =====
-- What map_page_4kb and map_page_2mb of drivers/paging.c do to the translation.
use neko_os_c.Prelude.{
  ℕ, suc, ◌+◌, ◌*◌, ◌/◌, ◌%◌, ◌^◌, ◌≤◌, ◌<◌, ◌≡◌, ◌≢◌, ◌⊎◌, inl, inr, sym, ap, ◌∙◌, ok, panic,
  arith, some, ◌||◌, ◌==◌, true,
}
use neko_os_c.Mem.{poke}
use neko_os_c.Paging.{Pages, next_table}
use neko_os_c.Paging.Agree.{walk-Agree, walk_page, poke_self, poke_ne}
use neko_os_c.Paging.Tree.{
  Shape, Tree, Linked, unused, huge, child, nth_table, nth_entry, nth_entry_inj,
}
use neko_os_c.Paging.Next.{state, next_table-Descent}
use neko_os_c.Paging.Walk.{page_of, span, index, index-span, walk}
use neko_os_c.Paging.Way.{Way, Above, step-Way}
use neko_os_c.Paging.Write.{write-Agree}

-- `root` is the top table of a tree of `used` tables of the pool.
pub record Tables (p : Pages) (root used : ℕ) : Type 0 where
  pub shape : Shape
  pub tree : Tree p shape
  pub count : tree.used ≡ used
  pub nth : ℕ
  pub within : nth < used
  pub is_nth : root ≡ nth_table p.pool nth
  pub level_is : shape.level nth ≡ 4
  pub prefix_is : shape.prefix nth ≡ 0

-- From `p` to `q` the page of level `l` at `virt` is mapped to `phys`, and no other address changes.
pub record Mapped (p : Pages) (root used l virt phys flags : ℕ) (q : Pages) : Type 0 where
  pub now_used : ℕ
  pub grew : now_used + l ≤ used + 3
  pub kept_used : used ≤ now_used
  pub tables : Tables q root now_used
  pub same_root : (q.pml4 ≡ p.pml4) × (q.pool ≡ p.pool)
  pub here :
      (v : ℕ)
      → v / span l ≡ virt / span l
      → walk 4 q.words root v
        ≡ some (record { phys = phys / span l * span l + v % span l; level = l; flags = flags })
  pub elsewhere :
      (v : ℕ)
      → v < 2 ^ 48
      → v / span l ≢ virt / span l
      → walk 4 q.words root v ≡ walk 4 p.words root v

module _ (p : Pages) (s : Shape) (tree : Tree p s) (root v l : ℕ) (w : Way p s tree root v l)
    (e : ℕ) where
  abbrev leaf_words : ℕ → ℕ
  leaf_words = poke w.words (nth_entry p.pool w.nth (index l v)) e

  pub leaf-Above : Above p w.shape w.now.used (suc l) w.words leaf_words
  leaf-Above k i old li high = poke_ne _ _ _ _ (λ same.
      let (ek, ei) = nth_entry_inj p.pool k i w.nth (index l v) li (omega arith) same in
      absurd (omega (arith, high, w.level_is, ap w.shape.level ek)))

  pub leaf-here :
      (u : ℕ)
      → u / span l ≡ v / span l
      → e % 2 ≡ 1
      → (l == 0 || e / 128 % 2 == 1) ≡ true
      → walk 4 leaf_words (nth_table p.pool root) u ≡ some (page_of l e u)
  leaf-here u here on last =
      let up : u / span (suc l) ≡ v / span (suc l) =
        omega (arith, here, index-span l u, index-span l v) in
      let reads : leaf_words (nth_entry p.pool w.nth (index l u)) ≡ e =
        ap (λ q. leaf_words (nth_entry p.pool w.nth (q % 512))) here ∙ poke_self _ _ _ in
      w.passes leaf_words u up leaf-Above
      ∙ walk_page l leaf_words (nth_table p.pool w.nth) u (ap (λ f. f % 2) reads ∙ on)
          (ap (λ f. l == 0 || f / 128 % 2 == 1) reads ∙ last)
      ∙ ap (λ f. some (page_of l f u)) reads

  pub leaf-elsewhere :
      (u n c : ℕ)
      → c < tree.used
      → s.level c ≡ n
      → s.prefix c ≡ u / span n
      → u / span l ≢ v / span l
      → walk n leaf_words (nth_table p.pool c) u ≡ walk n p.words (nth_table p.pool c) u
  leaf-elsewhere u n c old lc pc other =
      let (l1, p1) = w.kept_shape c old in
      walk-Agree (state p w.offset w.words) w.shape w.now leaf_words u n c
        (write-Agree (state p w.offset w.words) w.shape w.now w.nth (index l v) e w.within
          (omega arith) l u w.level_is
          (λ same. other (same ∙ ap (λ q. q * 512 + index l v) w.prefix_is ∙ sym (index-span l v))))
        (omega (arith, old, w.kept_used)) (l1 ∙ lc) (p1 ∙ pc)
      ∙ w.kept_walks u n c old lc pc

small_upper :
    (s : Shape) (pool used k i l e : ℕ)
    → Linked s pool used k i (suc l) e
    → e % 2 ≡ 1
    → e / 128 % 2 ≡ 0
small_upper s pool used k i l e (unused off) on = absurd (omega (arith, on, off))
small_upper s pool used k i l e (huge _ big low) on = absurd (omega (arith, low))
small_upper s pool used k i l e (child c _ small is) on = small

-- One more level down, or the end of the pool.
abbrev pub Goes :
    (p : Pages) (s : Shape) (tree : Tree p s) (root v l : ℕ) → Way p s tree root v (suc l) → Type 0
Goes p s tree root v l w =
    ((next_table (nth_table p.pool w.nth) (index (suc l) v) (state p w.offset w.words) ≡ panic)
      × (w.now.used ≡ 32))
    ⊎ ((d : Way p s tree root v l) × (next_table (nth_table p.pool w.nth) (index (suc l) v)
            (state p w.offset w.words)
          ≡ ok (nth_table p.pool d.nth, state p d.offset d.words)))

pub Way-Goes :
    (p : Pages) (s : Shape) (tree : Tree p s) (root v l : ℕ) (w : Way p s tree root v (suc l))
    → (w.words (nth_entry p.pool w.nth (index (suc l) v)) % 2 ≡ 1
        → w.words (nth_entry p.pool w.nth (index (suc l) v)) / 128 % 2 ≡ 0)
    → Goes p s tree root v l w
Way-Goes p s tree root v l w small =
    elim (next_table-Descent (state p w.offset w.words) w.shape w.now w.nth (index (suc l) v) l
      w.within (omega arith) w.level_is small) [
        | inl full ↦ inl full
        | inr d ↦ inr (step-Way p s tree root v l w d)
      ]

pub upper-Goes :
    (p : Pages) (s : Shape) (tree : Tree p s) (root v l : ℕ) (w : Way p s tree root v (suc (suc l)))
    → Goes p s tree root v (suc l) w
upper-Goes p s tree root v l w = Way-Goes p s tree root v (suc l) w (
    small_upper w.shape p.pool w.now.used w.nth (index (suc (suc l)) v) l _
      (w.now.links w.nth (index (suc (suc l)) v) (suc l) w.within (omega arith) w.level_is))
