-- ===== src/Paging/Agree.antt =====
-- Translations through the tables of drivers/paging.c that a change of the entries keeps.
use neko_os_c.Prelude.{
  ℕ, zero, suc, ◌/◌, ◌%◌, ◌<◌, ◌≡◌, ◌≢◌, ◌⊎◌, inl, inr, refl, sym, ap, ◌∙◌, ◌==◌, arith, ◌||◌, none,
  some, true,
}
use neko_os_c.Mem.{poke}
use neko_os_c.Paging.{Pages, entry_at}
use neko_os_c.Paging.Tree.{Shape, Tree, nth_table, nth_entry, walk-Reached}
use neko_os_c.Paging.Walk.{
  table, read_entry, frame, page_of, span, index, read_absent, read_page, read_table, walk,
  walk-suc, follow, follow_cong,
}

pub poke_self : (m : ℕ → ℕ) (a v : ℕ) → poke m a v a ≡ v
unfolding poke
poke_self m a v = ground arith

pub poke_ne : (m : ℕ → ℕ) (a v x : ℕ) → x ≢ a → poke m a v x ≡ m x
unfolding poke
poke_ne m a v x ne = ground (arith, ne)

pub eq_or_ne : (a b : ℕ) → (a ≡ b) ⊎ (a ≢ b)
eq_or_ne a b = ground arith

-- Two memories agree where a walk for `v` reads an entry of a table of the tree.
abbrev pub Agree : (p : Pages) (s : Shape) (used : ℕ) (words : ℕ → ℕ) (v : ℕ) → Type 0
Agree p s used words v =
    (k l : ℕ)
    → k < used
    → s.level k ≡ suc l
    → s.prefix k ≡ v / span (suc l)
    → (words (nth_entry p.pool k (index l v)) ≡ p.words (nth_entry p.pool k (index l v)))
      ⊎ (walk (suc l) words (nth_table p.pool k) v ≡ walk (suc l) p.words (nth_table p.pool k) v)

pub walk-Agree :
    (p : Pages) (s : Shape) (tree : Tree p s) (words : ℕ → ℕ) (v n k : ℕ)
    → Agree p s tree.used words v
    → k < tree.used
    → s.level k ≡ n
    → s.prefix k ≡ v / span n
    → walk n words (nth_table p.pool k) v ≡ walk n p.words (nth_table p.pool k) v
walk-Agree p s tree words v zero k agree lk lev pre = unfold walk in refl
walk-Agree p s tree words v (suc l) k agree lk lev pre = elim (agree k l lk lev pre) [
  | inr same ↦ same
  | inl same ↦
      let e = p.words (nth_entry p.pool k (index l v)) in
      let below = λ (t : ℕ) (reads : read_entry l e v ≡ table t).
        let r = walk-Reached p s tree k l v t lk lev pre reads in
        ap (λ a. walk l words a v) r.is_nth
        ∙ walk-Agree p s tree words v l r.nth agree r.within r.level_is r.prefix_is
        ∙ sym (ap (λ a. walk l p.words a v) r.is_nth) in
      walk-suc l words (nth_table p.pool k) v
      ∙ ap (λ w. follow (read_entry l w v) (λ c. walk l words c v)) same
      ∙ follow_cong (read_entry l e v) _ _ below
      ∙ sym (walk-suc l p.words (nth_table p.pool k) v)
]

pub walk-none :
    (l : ℕ) (words : ℕ → ℕ) (t v : ℕ)
    → words (entry_at t (index l v)) % 2 ≡ 0
    → walk (suc l) words t v ≡ none
walk-none l words t v off =
    walk-suc l words t v
    ∙ ap (λ r. follow r (λ c. walk l words c v))
        (read_absent l (words (entry_at t (index l v))) v off)

pub walk_table :
    (l : ℕ) (words : ℕ → ℕ) (t v : ℕ)
    → words (entry_at t (index (suc l) v)) % 2 ≡ 1
    → words (entry_at t (index (suc l) v)) / 128 % 2 ≡ 0
    → walk (suc (suc l)) words t v
      ≡ walk (suc l) words (frame (words (entry_at t (index (suc l) v)))) v
walk_table l words t v on small =
    walk-suc (suc l) words t v
    ∙ ap (λ r. follow r (λ c. walk (suc l) words c v))
        (read_table l (words (entry_at t (index (suc l) v))) v on small)

pub walk_page :
    (l : ℕ) (words : ℕ → ℕ) (t v : ℕ)
    → words (entry_at t (index l v)) % 2 ≡ 1
    → (l == 0 || words (entry_at t (index l v)) / 128 % 2 == 1) ≡ true
    → walk (suc l) words t v ≡ some (page_of l (words (entry_at t (index l v))) v)
walk_page l words t v on last =
    walk-suc l words t v
    ∙ ap (λ r. follow r (λ c. walk l words c v))
        (read_page l (words (entry_at t (index l v))) v on last)
