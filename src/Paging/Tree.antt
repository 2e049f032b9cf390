-- ===== src/Paging/Tree.antt =====
-- The tables of drivers/paging.c as a tree, by the level and the addresses that each of them serves.
use neko_os_c.Prelude.{
  ℕ, zero, suc, ◌+◌, ◌*◌, ◌/◌, ◌%◌, ◌^◌, ◌≤◌, ◌<◌, ◌≡◌, ◌≢◌, ◌⊎◌, inl, inr, refl, sym, ap, ◌∙◌,
  clear_low, arith,
}
use neko_os_c.Paging.{Pages, entry_at, pool_size}
use neko_os_c.Paging.Walk.{
  absent, page, table, read_entry, frame, span, index, index-span, read_absent, read_page,
  read_table,
}

-- The level of each table of the pool, and the addresses that it translates: those which `prefix` times
-- the span of the table begins.
pub record Shape : Type 0 where
  pub level : ℕ → ℕ
  pub prefix : ℕ → ℕ

abbrev pub nth_table : (pool k : ℕ) → ℕ
nth_table pool k = pool + k * 4096

abbrev pub nth_entry : (pool k i : ℕ) → ℕ
nth_entry pool k i = entry_at (nth_table pool k) i

-- Table `c` of the pool serves what index `i` of table `k` does, which refers to level `l`.
pub record Child (s : Shape) (pool used k i l e c : ℕ) : Type 0 where
  pub within : c < used
  pub refers : clear_low 12 e ≡ nth_table pool c
  pub level_is : s.level c ≡ l
  pub prefix_is : s.prefix c ≡ s.prefix k * 512 + i

-- What an entry holds that refers to level `suc l`; only level 1 has huge pages.
pub data Linked (s : Shape) (pool used k i l e : ℕ) : Type 0 where
  unused : e % 2 ≡ 0 → Linked s pool used k i l e
  huge : e % 2 ≡ 1 → e / 128 % 2 ≡ 1 → l ≡ 0 → Linked s pool used k i l e
  child :
      (c : ℕ)
      → e % 2 ≡ 1
      → e / 128 % 2 ≡ 0
      → Child s pool used k i (suc l) e c
      → Linked s pool used k i l e

pub record Tree (p : Pages) (s : Shape) : Type 0 where
  pub used : ℕ
  pub offset_is : p.pool_offset ≡ used * 4096
  pub fits : used ≤ 32
  pub aligned : p.pool % 4096 ≡ 0
  pub addressed : p.pool + pool_size ≤ 2 ^ 52
  pub links :
      (k i l : ℕ)
      → k < used
      → i < 512
      → s.level k ≡ suc (suc l)
      → Linked s p.pool used k i l (p.words (nth_entry p.pool k i))

pub nth_entry_inj :
    (pool k i k0 i0 : ℕ)
    → i < 512
    → i0 < 512
    → nth_entry pool k i ≡ nth_entry pool k0 i0
    → (k ≡ k0) × (i ≡ i0)
nth_entry_inj pool k i k0 i0 li li0 e = (omega arith, omega arith)

-- A table that the walk goes on to serves the address walked for.
pub record Reached (s : Shape) (pool used l v t : ℕ) : Type 0 where
  pub nth : ℕ
  pub within : nth < used
  pub is_nth : t ≡ nth_table pool nth
  pub level_is : s.level nth ≡ l
  pub prefix_is : s.prefix nth ≡ v / span l

table_inj : {t t' : ℕ} → table t ≡ table t' → t ≡ t'
table_inj {t} e = ap (λ s. elim s [ table c ↦ c | _ ↦ t ]) e

absent_ne_table : {t : ℕ} → absent ≢ table t
absent_ne_table e = ground (arith, e)

page_ne_table : {t : ℕ} {g : _} → page g ≢ table t
page_ne_table e = ground (arith, e)

pub parity : (e : ℕ) → (e % 2 ≡ 0) ⊎ (e % 2 ≡ 1)
parity e = ground arith

frame_is :
    (p : Pages) (s : Shape) (tree : Tree p s) (c e : ℕ)
    → c < tree.used
    → clear_low 12 e ≡ nth_table p.pool c
    → frame e ≡ nth_table p.pool c
frame_is p s tree c e within refers = omega (arith, tree.fits, tree.addressed)

last_level : (e v t : ℕ) → read_entry 0 e v ≢ table t
last_level e v t reads = elim (parity e) [
  | inl off ↦ absent_ne_table (sym (read_absent 0 e v off) ∙ reads)
  | inr on ↦ page_ne_table (sym (read_page 0 e v on refl) ∙ reads)
]

upper-Reached :
    (p : Pages) (s : Shape) (tree : Tree p s) (k l v t e : ℕ)
    → s.prefix k ≡ v / span (suc (suc l))
    → read_entry (suc l) e v ≡ table t
    → Linked s p.pool tree.used k (index (suc l) v) l e
    → Reached s p.pool tree.used (suc l) v t
upper-Reached p s tree k l v t e pre reads (unused off) =
    absurd (absent_ne_table (sym (read_absent (suc l) e v off) ∙ reads))
upper-Reached p s tree k l v t e pre reads (huge on big low) =
    absurd (page_ne_table (sym (read_page (suc l) e v on (ground (arith, big))) ∙ reads))
upper-Reached p s tree k l v t e pre reads (child c on small is) =
    let here : frame e ≡ t = table_inj (sym (read_table l e v on small) ∙ reads) in
    record {
      nth = c;
      within = is.within;
      is_nth = sym here ∙ frame_is p s tree c e is.within is.refers;
      level_is = is.level_is;
      prefix_is =
          is.prefix_is ∙ ap (λ q. q * 512 + index (suc l) v) pre ∙ sym (index-span (suc l) v);
    }

pub walk-Reached :
    (p : Pages) (s : Shape) (tree : Tree p s) (k l v t : ℕ)
    → k < tree.used
    → s.level k ≡ suc l
    → s.prefix k ≡ v / span (suc l)
    → read_entry l (p.words (nth_entry p.pool k (index l v))) v ≡ table t
    → Reached s p.pool tree.used l v t
walk-Reached p s tree k zero v t lk lev pre reads = absurd (last_level _ v t reads)
walk-Reached p s tree k (suc l) v t lk lev pre reads =
    upper-Reached p s tree k l v t (p.words (nth_entry p.pool k (index (suc l) v))) pre reads
      (tree.links k (index (suc l) v) l lk (omega arith) lev)
