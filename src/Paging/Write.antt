-- ===== src/Paging/Write.antt =====
-- The last assignment of map_page_4kb and map_page_2mb of drivers/paging.c: one entry is written.
use neko_os_c.Prelude.{ℕ, suc, ◌+◌, ◌*◌, ◌/◌, ◌<◌, ◌≡◌, ◌≢◌, inl, inr, sym, ap, ◌∙◌, arith}
use mathlib.Core.Path.{subst}
use neko_os_c.Mem.{poke}
use neko_os_c.Paging.{Pages}
use neko_os_c.Paging.Agree.{Agree, poke_self, poke_ne, eq_or_ne}
use neko_os_c.Paging.Tree.{Shape, Tree, Linked, nth_entry, nth_entry_inj}
use neko_os_c.Paging.Walk.{span, index, index-span}

abbrev pub write_entry : (k i e : ℕ) → Pages → Pages
write_entry k i e p = record p { words = poke p.words (nth_entry p.pool k i) e }

module _ (p : Pages) (s : Shape) (tree : Tree p s) (k i e : ℕ) (lk : k < tree.used)
    (li : i < 512) where
  -- An address that another entry of the level translates.
  pub write-Agree :
      (l v : ℕ)
      → s.level k ≡ suc l
      → v / span l ≢ s.prefix k * 512 + i
      → Agree p s tree.used (poke p.words (nth_entry p.pool k i) e) v
  write-Agree l v lev other k0 l0 lk0 lev0 pre0 =
      elim (eq_or_ne (nth_entry p.pool k0 (index l0 v)) (nth_entry p.pool k i)) [
        | inr ne ↦ inl (poke_ne p.words (nth_entry p.pool k i) e _ ne)
        | inl same ↦
            let (ek, ei) = nth_entry_inj p.pool k0 (index l0 v) k i (omega arith) li same in
            let el : l0 ≡ l = omega (arith, sym lev0 ∙ ap s.level ek ∙ lev) in
            let here : v / span l0 ≡ s.prefix k * 512 + i =
              index-span l0 v
              ∙ ap (λ q. q * 512 + index l0 v) (sym pre0 ∙ ap s.prefix ek)
              ∙ ap (λ j. s.prefix k * 512 + j) ei in
            absurd (other (ap (λ n. v / span n) (sym el) ∙ here))
      ]

  pub write-Tree :
      ((l : ℕ) → s.level k ≡ suc (suc l) → Linked s p.pool tree.used k i l e)
      → Tree (write_entry k i e p) s
  write-Tree linked = record {
    used = tree.used;
    offset_is = tree.offset_is;
    fits = tree.fits;
    aligned = tree.aligned;
    addressed = tree.addressed;
    links = λ k0 i0 l0 lk0 li0 lev0.
        elim (eq_or_ne (nth_entry p.pool k0 i0) (nth_entry p.pool k i)) [
          | inr ne ↦
              subst (Linked s p.pool tree.used k0 i0 l0)
                (sym (poke_ne p.words (nth_entry p.pool k i) e _ ne))
                (tree.links k0 i0 l0 lk0 li0 lev0)
          | inl same ↦
              let (ek, ei) = nth_entry_inj p.pool k0 i0 k i li0 li same in
              let written : e ≡ poke p.words (nth_entry p.pool k i) e (nth_entry p.pool k0 i0) =
                sym (poke_self p.words (nth_entry p.pool k i) e)
                ∙ ap (poke p.words (nth_entry p.pool k i) e) (sym same) in
              subst (Linked s p.pool tree.used k0 i0 l0) written (
                subst (λ a. Linked s p.pool tree.used a i0 l0 e) (sym ek)
                  (subst (λ a. Linked s p.pool tree.used k a l0 e) (sym ei)
                    (linked l0 (sym (ap s.level ek) ∙ lev0))))
        ];
  }
