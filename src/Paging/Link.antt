-- ===== src/Paging/Link.antt =====
-- The entries of drivers/paging.c that refer to a table, allocated where there is none.
use neko_os_c.Prelude.{
  ℕ, zero, suc, ◌+◌, ◌*◌, ◌%◌, ◌<◌, ◌≡◌, ◌≢◌, ◌⊎◌, inl, inr, sym, ap, ◌∙◌, ◌==◌, none, bit_or,
  bit_or_bit, if◌then◌else◌, arith,
}
use mathlib.Core.Path.{subst}
use neko_os_c.Mem.{poke}
use neko_os_c.Mem.Copy.{within}
use neko_os_c.Paging.{Pages, table_size, page_present, page_writable}
use neko_os_c.Paging.Agree.{Agree, poke_self, poke_ne, eq_or_ne, walk-none, walk_table}
use neko_os_c.Paging.Tree.{
  Shape, Tree, Linked, unused, huge, child, nth_table, nth_entry, nth_entry_inj,
}
use neko_os_c.Paging.Walk.{index, walk, frame}

-- An aligned address with PAGE_PRESENT and PAGE_WRITABLE.
pub link_is : (t : ℕ) → t % 4096 ≡ 0 → bit_or (bit_or t page_present) page_writable ≡ t + 3
link_is t low =
    let one : bit_or t page_present ≡ t + 1 = omega (arith, bit_or_bit 0 t) in
    ap (λ e. bit_or e page_writable) one ∙ omega (arith, bit_or_bit 1 (t + 1))

-- The words of the pool with a new table and the entry that refers to it.
abbrev pub linked_words : (pool used k i : ℕ) → (ℕ → ℕ) → ℕ → ℕ
linked_words pool used k i words =
    poke (λ a. if within (nth_table pool used) table_size a then 0 else words a)
      (nth_entry pool k i) (nth_table pool used + 3)

abbrev pub linked_pages : (used k i : ℕ) → Pages → Pages
linked_pages used k i p = record p {
  pool_offset = p.pool_offset + table_size;
  words = linked_words p.pool used k i p.words;
}

-- The shape with the new table, which serves index `i` of table `k`.
abbrev pub grown : (used k i l : ℕ) → Shape → Shape
grown used k i l s = record {
  level = λ c. if c == used then l else s.level c;
  prefix = λ c. if c == used then s.prefix k * 512 + i else s.prefix c;
}

pub grown_old :
    (used k i l : ℕ) (s : Shape) (c : ℕ)
    → c < used
    → ((grown used k i l s).level c ≡ s.level c) × ((grown used k i l s).prefix c ≡ s.prefix c)
grown_old used k i l s c old = (ground (arith, old), ground (arith, old))

pub grown_new :
    (used k i l : ℕ) (s : Shape)
    → ((grown used k i l s).level used ≡ l)
      × ((grown used k i l s).prefix used ≡ s.prefix k * 512 + i)
grown_new used k i l s = (ground arith, ground arith)

module _ (p : Pages) (s : Shape) (tree : Tree p s) (k i l : ℕ) (lk : k < tree.used)
    (li : i < 512) where
  abbrev new_words : ℕ → ℕ
  new_words = linked_words p.pool tree.used k i p.words

  -- Entries of the old tables other than the one written, and those of the new table.
  pub link_old :
      (k0 i0 : ℕ)
      → k0 < tree.used
      → i0 < 512
      → nth_entry p.pool k0 i0 ≢ nth_entry p.pool k i
      → linked_words p.pool tree.used k i p.words (nth_entry p.pool k0 i0)
        ≡ p.words (nth_entry p.pool k0 i0)
  link_old k0 i0 lk0 li0 ne = poke_ne _ _ _ _ ne ∙ ground (arith, lk0, li0)

  pub link_self :
      linked_words p.pool tree.used k i p.words (nth_entry p.pool k i)
      ≡ nth_table p.pool tree.used + 3
  link_self = poke_self _ _ _

  pub link_new :
      (i0 : ℕ)
      → i0 < 512
      → linked_words p.pool tree.used k i p.words (nth_entry p.pool tree.used i0) ≡ 0
  link_new i0 li0 = poke_ne _ _ _ _ (λ same. absurd (omega (arith, same))) ∙ ground (arith, li0)

  -- A walk that comes to the entry finds nothing, as before: the new table is empty.
  pub link_same :
      (l0 v : ℕ)
      → tree.used < 32
      → s.level k ≡ suc (suc l)
      → p.words (nth_entry p.pool k i) % 2 ≡ 0
      → suc l0 ≡ suc (suc l)
      → index l0 v ≡ i
      → walk (suc l0) (linked_words p.pool tree.used k i p.words) (nth_table p.pool k) v
        ≡ walk (suc l0) p.words (nth_table p.pool k) v
  link_same zero v room lev off el ei = absurd (omega arith)
  link_same (suc l0) v room lev off el ei =
      let words = linked_words p.pool tree.used k i p.words in
      let reads : words (nth_entry p.pool k (index (suc l0) v)) ≡ nth_table p.pool tree.used + 3 =
        ap (λ j. words (nth_entry p.pool k j)) ei ∙ link_self in
      let goes : frame (words (nth_entry p.pool k (index (suc l0) v)))
          ≡ nth_table p.pool tree.used =
        omega (arith, reads, room, tree.aligned, tree.addressed) in
      let empty : walk (suc l0) words (nth_table p.pool tree.used) v ≡ none =
        walk-none l0 words (nth_table p.pool tree.used) v
          (omega (arith, link_new (index l0 v) (omega arith))) in
      let before : p.words (nth_entry p.pool k (index (suc l0) v)) % 2 ≡ 0 =
        ap (λ j. p.words (nth_entry p.pool k j) % 2) ei ∙ off in
      walk_table l0 words (nth_table p.pool k) v (omega (arith, reads, tree.aligned))
        (omega (arith, reads, tree.aligned))
      ∙ ap (λ t. walk (suc l0) words t v) goes
      ∙ empty
      ∙ sym (walk-none (suc l0) p.words (nth_table p.pool k) v before)

  pub link-Agree :
      (v : ℕ)
      → tree.used < 32
      → s.level k ≡ suc (suc l)
      → p.words (nth_entry p.pool k i) % 2 ≡ 0
      → Agree p s tree.used (linked_words p.pool tree.used k i p.words) v
  link-Agree v room lev off k0 l0 lk0 lev0 pre0 =
      elim (eq_or_ne (nth_entry p.pool k0 (index l0 v)) (nth_entry p.pool k i)) [
        | inr ne ↦ inl (link_old k0 (index l0 v) lk0 (omega arith) ne)
        | inl same ↦
            let (ek, ei) = nth_entry_inj p.pool k0 (index l0 v) k i (omega arith) li same in
            inr (
              subst
                (λ c.
                  walk (suc l0) (linked_words p.pool tree.used k i p.words) (nth_table p.pool c) v
                  ≡ walk (suc l0) p.words (nth_table p.pool c) v)
                (sym ek) (link_same l0 v room lev off (sym lev0 ∙ ap s.level ek ∙ lev) ei))
      ]

  -- What an old entry holds, in the grown shape.
  lift-Linked :
      (k0 i0 l0 e : ℕ)
      → k0 < tree.used
      → Linked s p.pool tree.used k0 i0 l0 e
      → Linked (grown tree.used k i (suc l) s) p.pool (suc tree.used) k0 i0 l0 e
  lift-Linked k0 i0 l0 e lk0 (unused off) = unused off
  lift-Linked k0 i0 l0 e lk0 (huge on big low) = huge on big low
  lift-Linked k0 i0 l0 e lk0 (child c on small is) =
      let (lc, pc) = grown_old tree.used k i (suc l) s c is.within in
      let (l0_, p0) = grown_old tree.used k i (suc l) s k0 lk0 in
      child c on small (record {
        within = omega (arith, is.within);
        refers = is.refers;
        level_is = lc ∙ is.level_is;
        prefix_is = pc ∙ is.prefix_is ∙ ap (λ q. q * 512 + i0) (sym p0);
      })

  new-Linked :
      (l0 : ℕ)
      → s.level k ≡ suc (suc l)
      → s.level k ≡ suc (suc l0)
      → Linked
          (grown tree.used k i (suc l) s)
          p.pool
          (suc tree.used)
          k
          i
          l0
          (nth_table p.pool tree.used + 3)
  new-Linked l0 lev lev0 =
      let (ln, pn) = grown_new tree.used k i (suc l) s in
      let (lo, po) = grown_old tree.used k i (suc l) s k lk in
      child tree.used (omega (arith, tree.aligned)) (omega (arith, tree.aligned)) (record {
        within = omega arith;
        refers = omega (arith, tree.aligned);
        level_is = ln ∙ omega (arith, sym lev ∙ lev0);
        prefix_is = pn ∙ ap (λ q. q * 512 + i) (sym po);
      })

  entry_kind :
      (k0 i0 : ℕ)
      → k0 < suc tree.used
      → i0 < 512
      → ((k0 ≡ tree.used) ⊎ ((k0 ≡ k) × (i0 ≡ i)))
        ⊎ ((k0 < tree.used) × (nth_entry p.pool k0 i0 ≢ nth_entry p.pool k i))
  entry_kind k0 i0 lk0 li0 = elim (eq_or_ne k0 tree.used) [
    | inl new ↦ inl (inl new)
    | inr old ↦ elim (eq_or_ne (nth_entry p.pool k0 i0) (nth_entry p.pool k i)) [
      | inl same ↦ inl (inr (nth_entry_inj p.pool k0 i0 k i li0 li same))
      | inr other ↦ inr (ground (arith, old, lk0), other)
    ]
  ]

  pub link-Tree :
      s.level k ≡ suc (suc l)
      → tree.used < 32
      → Tree (linked_pages tree.used k i p) (grown tree.used k i (suc l) s)
  link-Tree lev room = record {
    used = suc tree.used;
    offset_is = omega (arith, tree.offset_is);
    fits = room;
    aligned = tree.aligned;
    addressed = tree.addressed;
    links = λ k0 i0 l0 lk0 li0 lev0. elim (entry_kind k0 i0 lk0 li0) [
      | inl (inl new) ↦ unused (
          ap (λ c. linked_words p.pool tree.used k i p.words (nth_entry p.pool c i0) % 2) new
          ∙ ap (λ w. w % 2) (link_new i0 li0))
      | inl (inr (ek, ei)) ↦
          let (lo, po) = grown_old tree.used k i (suc l) s k lk in
          let at_k =
            new-Linked l0 lev (sym lo ∙ ap (grown tree.used k i (suc l) s).level (sym ek) ∙ lev0) in
          let S : ℕ → ℕ → ℕ → Type 0 =
            λ a b. Linked (grown tree.used k i (suc l) s) p.pool (suc tree.used) a b l0 in
          subst (S k0 i0)
            (sym (
              ap (λ c. linked_words p.pool tree.used k i p.words (nth_entry p.pool c i0)) ek
              ∙ ap (λ j. linked_words p.pool tree.used k i p.words (nth_entry p.pool k j)) ei
              ∙ link_self))
            (subst (λ a. S a i0 (nth_table p.pool tree.used + 3)) (sym ek)
              (subst (λ b. S k b (nth_table p.pool tree.used + 3)) (sym ei) at_k))
      | inr (old, other) ↦
          let (lo, po) = grown_old tree.used k i (suc l) s k0 old in
          lift-Linked k0 i0 l0 _ old (
            subst (Linked s p.pool tree.used k0 i0 l0) (sym (link_old k0 i0 old li0 other))
              (tree.links k0 i0 l0 old li0 (sym lo ∙ lev0)))
    ];
  }
