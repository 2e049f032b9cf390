-- ===== src/Paging/Next.antt =====
-- One level down the tables of drivers/paging.c, with a new table where there is none.
use neko_os_c.Prelude.{
  ℕ, suc, ◌+◌, ◌*◌, ◌/◌, ◌%◌, ◌≤◌, ◌<◌, ◌≡◌, ◌≢◌, ◌⊎◌, inl, inr, refl, sym, ap, ◌∙◌, ◌==◌,
  clear_low, bit_or, bit_and, bit_and_mask, true, false, ltb, if◌then◌else◌, ok, panic, ◌>>=◌,
  arith,
}
use neko_os_c.Mem.{poke}
use neko_os_c.Mem.Copy.{within}
use neko_os_c.Paging.{
  Pages, entry_at, pool_size, table_size, alloc_page_table, link_table, next_table, page_present,
  page_writable,
}
use neko_os_c.Paging.Agree.{walk-Agree, poke_self, eq_or_ne}
use neko_os_c.Paging.Tree.{
  Shape, Tree, Linked, Child, unused, huge, child, nth_table, nth_entry, parity,
}
use neko_os_c.Paging.Link.{
  link_is, linked_words, linked_pages, grown, grown_old, grown_new, link_old, link_self, link-Agree,
  link-Tree,
}
use neko_os_c.Paging.Walk.{span, walk}

-- The state with other entries and another end of the used part of the pool.
abbrev pub state : Pages → ℕ → (ℕ → ℕ) → Pages
state p offset words = record p { pool_offset = offset; words = words }

-- What next_table leaves at index `i` of table `k`, which refers to tables of level `suc l`.
pub record Descent (p : Pages) (s : Shape) (tree : Tree p s) (k i l : ℕ) : Type 0 where
  pub offset : ℕ
  pub words : ℕ → ℕ
  pub shape : Shape
  pub now : Tree (state p offset words) shape
  pub nth : ℕ
  pub returns :
      next_table (nth_table p.pool k) i p ≡ ok (nth_table p.pool nth, state p offset words)
  pub on : words (nth_entry p.pool k i) % 2 ≡ 1
  pub small : words (nth_entry p.pool k i) / 128 % 2 ≡ 0
  pub below : Child shape p.pool now.used k i (suc l) (words (nth_entry p.pool k i)) nth
  pub grew : now.used ≤ suc tree.used
  pub kept_used : tree.used ≤ now.used
  pub kept_shape :
      (c : ℕ) → c < tree.used → (shape.level c ≡ s.level c) × (shape.prefix c ≡ s.prefix c)
  pub kept_words :
      (k0 i0 : ℕ)
      → k0 < tree.used
      → i0 < 512
      → nth_entry p.pool k0 i0 ≢ nth_entry p.pool k i
      → words (nth_entry p.pool k0 i0) ≡ p.words (nth_entry p.pool k0 i0)
  pub kept_walks :
      (v n c : ℕ)
      → c < tree.used
      → s.level c ≡ n
      → s.prefix c ≡ v / span n
      → walk n words (nth_table p.pool c) v ≡ walk n p.words (nth_table p.pool c) v

next_table_found :
    (table i : ℕ) (p : Pages)
    → p.words (entry_at table i) % 2 ≡ 1
    → next_table table i p ≡ ok (clear_low 12 (p.words (entry_at table i)), p)
unfolding next_table
next_table_found table i p on = ground (arith, on, bit_and_mask 1 (p.words (entry_at table i)))

abbrev fresh : ℕ → Pages → Pages
fresh table p = record p {
  pool_offset = p.pool_offset + table_size;
  words = λ a. if within table table_size a then 0 else p.words a;
}

alloc_page_table_new :
    (p : Pages) (s : Shape) (tree : Tree p s)
    → tree.used < 32
    → alloc_page_table p ≡ ok (nth_table p.pool tree.used, fresh (nth_table p.pool tree.used) p)
unfolding alloc_page_table
alloc_page_table_new p s tree room =
    let fits : ltb pool_size (p.pool_offset + table_size) ≡ false =
      ground (arith, room, tree.offset_is) in
    ap (λ b. if b then panic else ok (p.pool + p.pool_offset, fresh (p.pool + p.pool_offset) p))
      fits
    ∙ ap (λ t. ok (t, fresh t p)) (ap (λ o. p.pool + o) tree.offset_is)

next_table_new :
    (p : Pages) (s : Shape) (tree : Tree p s) (k i : ℕ)
    → p.words (nth_entry p.pool k i) % 2 ≡ 0
    → tree.used < 32
    → next_table (nth_table p.pool k) i p
      ≡ ok (nth_table p.pool tree.used, linked_pages tree.used k i p)
unfolding next_table link_table
next_table_new p s tree k i off room =
    let entry = nth_entry p.pool k i in
    let t = nth_table p.pool tree.used in
    let q = linked_pages tree.used k i p in
    let absent : (bit_and (p.words entry) page_present == 0) ≡ true =
      ground (arith, off, bit_and_mask 1 (p.words entry)) in
    let flagged = link_is t (omega (arith, tree.aligned)) in
    let links : link_table entry p ≡ ok q =
      ap
        (λ r. r >>= λ (table, f). ok (record f {
          words = poke f.words entry (bit_or (bit_or table page_present) page_writable);
        }))
        (alloc_page_table_new p s tree room)
      ∙ ap (λ e. ok (record (fresh t p) { words = poke (fresh t p).words entry e })) flagged in
    let refers : clear_low 12 (q.words entry) ≡ t =
      omega (arith, poke_self (fresh t p).words entry (t + 3), tree.aligned) in
    ap (λ b. (if b then link_table entry p else ok p) >>= λ f. ok (clear_low 12 (f.words entry), f))
      absent
    ∙ ap (λ r. r >>= λ f. ok (clear_low 12 (f.words entry), f)) links
    ∙ ap (λ a. ok (a, q)) refers

next_table_panic :
    (p : Pages) (s : Shape) (tree : Tree p s) (k i : ℕ)
    → p.words (nth_entry p.pool k i) % 2 ≡ 0
    → tree.used ≡ 32
    → next_table (nth_table p.pool k) i p ≡ panic
unfolding next_table link_table alloc_page_table
next_table_panic p s tree k i off full =
    ground (arith, off, full, tree.offset_is, bit_and_mask 1 (p.words (nth_entry p.pool k i)))

found-Descent :
    (p : Pages) (s : Shape) (tree : Tree p s) (k i l : ℕ)
    → p.words (nth_entry p.pool k i) % 2 ≡ 1
    → (p.words (nth_entry p.pool k i) % 2 ≡ 1 → p.words (nth_entry p.pool k i) / 128 % 2 ≡ 0)
    → Linked s p.pool tree.used k i l (p.words (nth_entry p.pool k i))
    → Descent p s tree k i l
found-Descent p s tree k i l on small (unused off) = absurd (omega (arith, on, off))
found-Descent p s tree k i l on small (huge _ big low) = absurd (omega (arith, small on, big))
found-Descent p s tree k i l on small (child c _ flat is) = record {
  offset = p.pool_offset;
  words = p.words;
  shape = s;
  now = tree;
  nth = c;
  returns = next_table_found (nth_table p.pool k) i p on ∙ ap (λ a. ok (a, p)) is.refers;
  on = on;
  small = flat;
  below = is;
  grew = omega arith;
  kept_used = omega arith;
  kept_shape = λ c0 old. (refl, refl);
  kept_words = λ k0 i0 old li0 other. refl;
  kept_walks = λ v n c0 old lev pre. refl;
}

new-Descent :
    (p : Pages) (s : Shape) (tree : Tree p s) (k i l : ℕ)
    → k < tree.used
    → i < 512
    → s.level k ≡ suc (suc l)
    → p.words (nth_entry p.pool k i) % 2 ≡ 0
    → tree.used < 32
    → Descent p s tree k i l
new-Descent p s tree k i l lk li lev off room =
    let e = link_self p s tree k i l lk li in
    let (lo, po) = grown_old tree.used k i (suc l) s k lk in
    let now = link-Tree p s tree k i l lk li lev room in
    let count : now.used ≡ suc tree.used = omega (arith, now.offset_is, tree.offset_is) in
    let (ln, pn) = grown_new tree.used k i (suc l) s in
    record {
      offset = p.pool_offset + table_size;
      words = linked_words p.pool tree.used k i p.words;
      shape = grown tree.used k i (suc l) s;
      now = now;
      nth = tree.used;
      returns = next_table_new p s tree k i off room;
      on = omega (arith, e, tree.aligned);
      small = omega (arith, e, tree.aligned);
      below = record {
        within = omega (arith, count);
        refers = omega (arith, e, tree.aligned);
        level_is = ln;
        prefix_is = pn ∙ ap (λ q. q * 512 + i) (sym po);
      };
      grew = omega (arith, count);
      kept_used = omega (arith, count);
      kept_shape = λ c old. grown_old tree.used k i (suc l) s c old;
      kept_words = λ k0 i0 old li0 other. link_old p s tree k i l lk li k0 i0 old li0 other;
      kept_walks = λ v n c old lev0 pre0.
          walk-Agree p s tree (linked_words p.pool tree.used k i p.words) v n c
            (link-Agree p s tree k i l lk li v room lev off) old lev0 pre0;
    }

pub next_table-Descent :
    (p : Pages) (s : Shape) (tree : Tree p s) (k i l : ℕ)
    → k < tree.used
    → i < 512
    → s.level k ≡ suc (suc l)
    → (p.words (nth_entry p.pool k i) % 2 ≡ 1 → p.words (nth_entry p.pool k i) / 128 % 2 ≡ 0)
    → ((next_table (nth_table p.pool k) i p ≡ panic) × (tree.used ≡ 32)) ⊎ Descent p s tree k i l
next_table-Descent p s tree k i l lk li lev small = elim (parity (p.words (nth_entry p.pool k i))) [
  | inr on ↦ inr (found-Descent p s tree k i l on small (tree.links k i l lk li lev))
  | inl off ↦ elim (eq_or_ne tree.used 32) [
    | inl full ↦ inl (next_table_panic p s tree k i off full, full)
    | inr room ↦ inr (new-Descent p s tree k i l lk li lev off (ground (arith, room, tree.fits)))
  ]
]
