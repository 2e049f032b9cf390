-- ===== src/Paging/Way.antt =====
-- The way from the top table of drivers/paging.c down to the table that serves an address.
use neko_os_c.Prelude.{ok, ℕ, suc, ◌+◌, ◌*◌, ◌/◌, ◌%◌, ◌≤◌, ◌<◌, ◌≡◌, refl, sym, ap, ◌∙◌, arith}
use neko_os_c.Paging.{Pages, next_table}
use neko_os_c.Paging.Agree.{walk_table}
use neko_os_c.Paging.Tree.{Shape, Tree, nth_table, nth_entry, nth_entry_inj}
use neko_os_c.Paging.Next.{Descent, state}
use neko_os_c.Paging.Walk.{span, index, index-span, walk}

-- Two memories hold the same entries of the tables whose level is above `level`.
abbrev pub Above : (p : Pages) (s : Shape) (used level : ℕ) (words words' : ℕ → ℕ) → Type 0
Above p s used level words words' =
    (k i : ℕ)
    → k < used
    → i < 512
    → level < s.level k
    → words' (nth_entry p.pool k i) ≡ words (nth_entry p.pool k i)

-- From table `root`, of level 4, to table `nth`, of level `suc l`, through the entries for `v`.
pub record Way (p : Pages) (s : Shape) (tree : Tree p s) (root v l : ℕ) : Type 0 where
  pub offset : ℕ
  pub words : ℕ → ℕ
  pub shape : Shape
  pub now : Tree (state p offset words) shape
  pub nth : ℕ
  pub within : nth < now.used
  pub level_is : shape.level nth ≡ suc l
  pub prefix_is : shape.prefix nth ≡ v / span (suc l)
  pub grew : now.used + l ≤ tree.used + 3
  pub kept_used : tree.used ≤ now.used
  pub kept_shape :
      (c : ℕ) → c < tree.used → (shape.level c ≡ s.level c) × (shape.prefix c ≡ s.prefix c)
  pub kept_walks :
      (u n c : ℕ)
      → c < tree.used
      → s.level c ≡ n
      → s.prefix c ≡ u / span n
      → walk n words (nth_table p.pool c) u ≡ walk n p.words (nth_table p.pool c) u
  pub passes :
      (words' : ℕ → ℕ) (u : ℕ)
      → u / span (suc l) ≡ v / span (suc l)
      → Above p shape now.used (suc l) words words'
      → walk 4 words' (nth_table p.pool root) u ≡ walk (suc l) words' (nth_table p.pool nth) u

pub start-Way :
    (p : Pages) (s : Shape) (tree : Tree p s) (root v : ℕ)
    → root < tree.used
    → s.level root ≡ 4
    → s.prefix root ≡ v / span 4
    → (w : Way p s tree root v 3) × ((p ≡ state p w.offset w.words) × (root ≡ w.nth))
start-Way p s tree root v lr lev pre = (
  record {
    offset = p.pool_offset;
    words = p.words;
    shape = s;
    now = tree;
    nth = root;
    within = lr;
    level_is = lev;
    prefix_is = pre;
    grew = omega arith;
    kept_used = omega arith;
    kept_shape = λ c old. (refl, refl);
    kept_walks = λ u n c old lc pc. refl;
    passes = λ words' u here above. refl;
  },
  (refl, refl),
)

upper_span :
    (l u v : ℕ)
    → u / span l ≡ v / span l
    → (u / span (suc l) ≡ v / span (suc l)) × (index l u ≡ index l v)
upper_span l u v e = (omega (arith, e, index-span l u, index-span l v), ap (λ q. q % 512) e)

module _ (p : Pages) (s : Shape) (tree : Tree p s) (root v l : ℕ) (w : Way p s tree root v (suc l))
    (d : Descent (state p w.offset w.words) w.shape w.now w.nth (index (suc l) v) l) where
  -- The entry that the descent goes through stands above the level that it comes to.
  Above-up :
      (words' : ℕ → ℕ)
      → Above p d.shape d.now.used (suc l) d.words words'
      → Above p w.shape w.now.used (suc (suc l)) w.words words'
  Above-up words' above k i old li high =
      above k i (omega (arith, old, d.kept_used)) li (omega (arith, high, (d.kept_shape k old).0))
      ∙ d.kept_words k i old li (λ same.
        let (ek, ei) = nth_entry_inj p.pool k i w.nth (index (suc l) v) li (omega arith) same in
        absurd (omega (arith, high, w.level_is, ap w.shape.level ek)))

  step-passes :
      (words' : ℕ → ℕ) (u : ℕ)
      → u / span (suc l) ≡ v / span (suc l)
      → Above p d.shape d.now.used (suc l) d.words words'
      → walk 4 words' (nth_table p.pool root) u ≡ walk (suc l) words' (nth_table p.pool d.nth) u
  step-passes words' u here above =
      let (up, ei) = upper_span (suc l) u v here in
      let level_now = (d.kept_shape w.nth w.within).0 ∙ w.level_is in
      let reads : words' (nth_entry p.pool w.nth (index (suc l) u))
          ≡ d.words (nth_entry p.pool w.nth (index (suc l) v)) =
        ap (λ i. words' (nth_entry p.pool w.nth i)) ei
        ∙ above w.nth (index (suc l) v) (omega (arith, w.within, d.kept_used)) (omega arith)
            (omega (arith, level_now)) in
      w.passes words' u up (Above-up words' above)
      ∙ walk_table l words' (nth_table p.pool w.nth) u (omega (arith, reads, d.on))
          (omega (arith, reads, d.small))
      ∙ ap (λ t. walk (suc l) words' t u)
          (omega (arith, reads, d.below.refers, d.below.within, d.now.fits, d.now.addressed))

  pub step-Way :
      (n : Way p s tree root v l) × (next_table
          (nth_table p.pool w.nth)
          (index (suc l) v)
          (state p w.offset w.words)
        ≡ ok (nth_table p.pool n.nth, state p n.offset n.words))
  step-Way = (
    record {
      offset = d.offset;
      words = d.words;
      shape = d.shape;
      now = d.now;
      nth = d.nth;
      within = d.below.within;
      level_is = d.below.level_is;
      prefix_is =
          d.below.prefix_is
          ∙ ap (λ q. q * 512 + index (suc l) v) ((d.kept_shape w.nth w.within).1 ∙ w.prefix_is)
          ∙ sym (index-span (suc l) v);
      grew = omega (arith, d.grew, w.grew);
      kept_used = omega (arith, d.kept_used, w.kept_used);
      kept_shape = λ c old.
          let (l1, p1) = w.kept_shape c old in
          let (l2, p2) = d.kept_shape c (omega (arith, old, w.kept_used)) in (l2 ∙ l1, p2 ∙ p1);
      kept_walks = λ u n c old lc pc.
          let (l1, p1) = w.kept_shape c old in
          d.kept_walks u n c (omega (arith, old, w.kept_used)) (l1 ∙ lc) (p1 ∙ pc)
          ∙ w.kept_walks u n c old lc pc;
      passes = step-passes;
    },
    d.returns,
  )
