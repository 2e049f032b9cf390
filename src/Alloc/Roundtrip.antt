-- ===== src/Alloc/Roundtrip.antt =====
-- lib/alloc.c: what kfree gives back.
use neko_os_c.Prelude.{
  ℕ, ◌+◌, ◌-◌, ◌<◌, ◌≡◌, refl, sym, ap, ◌∙◌, ◌≢◌, Bool, true, false, ◌&&◌, some, List, [], ◌∷◌,
  arith, ◌==◌, leb, ok, ◌>>=◌, Bool-cases, inl, inr,
}
use neko_os_c.Alloc.{header_size, Heap, kfree, kmalloc, align8}
use neko_os_c.Alloc.Cells.{Cell, cell, Tiles, IsHeap, cell_at}
use neko_os_c.Alloc.Kmalloc.{fits, alloc_cells, alloc_ptr, kmalloc-alloc_cells}
use neko_os_c.Alloc.Promise.{Keeps, alloc_cells-Granted}
use neko_os_c.Alloc.Kfree.{mark, join, coalesce, merged, join-both, join-apart, kfree-coalesce}

abbrev pub head_free : List Cell → Bool
head_free [] = false
head_free (c ∷ cs) = c.free

-- No two neighbours are both free.
abbrev pub Coalesced : List Cell → Type 0
Coalesced [] = Unit {0}
Coalesced (c ∷ cs) = ((c.free && head_free cs) ≡ false) × Coalesced cs

head_free-join : (c : Cell) (cs : List Cell) → head_free (join c cs) ≡ c.free
head_free-join c [] = unfold join in refl
head_free-join c (d ∷ cs) = elim (Bool-cases (c.free && d.free)) [
  | inl both ↦ rw (join-both c d cs both) (head_free-join (merged c d) cs)
  | inr apart ↦ rw (join-apart c d cs apart)
]

join-Coalesced : (c : Cell) (cs : List Cell) → Coalesced (join c cs)
join-Coalesced c [] = unfold join in (ground arith, tt)
join-Coalesced c (d ∷ cs) = elim (Bool-cases (c.free && d.free)) [
  | inl both ↦ rw (join-both c d cs both) (join-Coalesced (merged c d) cs)
  | inr apart ↦ rw (join-apart c d cs apart) (rw (head_free-join d cs) apart, join-Coalesced d cs)
]

coalesce-Coalesced : (cs : List Cell) → Coalesced (coalesce cs)
unfolding coalesce
coalesce-Coalesced [] = tt
coalesce-Coalesced (c ∷ cs) = join-Coalesced c cs

-- A list with no free neighbours is left as it is.
join_of_Coalesced : (c : Cell) (cs : List Cell) → Coalesced (c ∷ cs) → join c cs ≡ c ∷ cs
join_of_Coalesced c [] k = unfold join in refl
join_of_Coalesced c (d ∷ cs) k =
    join-apart c d cs k.0 ∙ ap (λ (r : List Cell). c ∷ r) (join_of_Coalesced d cs k.1)

join-cons :
    (c : Cell) (cs ds : List Cell)
    → coalesce cs ≡ ds
    → head_free cs ≡ head_free ds
    → Coalesced (c ∷ ds)
    → join c cs ≡ c ∷ ds
unfolding coalesce
join-cons c [] ds e same k = unfold join in ap (λ (r : List Cell). c ∷ r) e
join-cons c (d ∷ cs) ds e same k = join-apart c d cs (rw same k.0) ∙ ap (λ (r : List Cell). c ∷ r) e

join-Keeps : (c : Cell) (cs : List Cell) → Keeps (c ∷ cs) (join c cs)
join-Keeps c [] x u e used = unfold join in e
join-Keeps c (d ∷ cs) x u e used = elim (Bool-cases (c.free && d.free)) [
  | inl both ↦ rw (join-both c d cs both) (join-Keeps (merged c d) cs x u (ground arith) used)
  | inr apart ↦ rw (join-apart c d cs apart) (ground (arith, join-Keeps d cs x u))
]

coalesce-Keeps : (cs : List Cell) → Keeps cs (coalesce cs)
unfolding coalesce
coalesce-Keeps [] x u e used = e
coalesce-Keeps (c ∷ cs) x u e used = join-Keeps c cs x u e used

mark-Keeps :
    (a x : ℕ) (u : Cell) (cs : List Cell)
    → x ≢ a
    → cell_at x cs ≡ some u
    → cell_at x (mark a cs) ≡ some u
unfolding mark
mark-Keeps a x u [] ne e = e
mark-Keeps a x u (c ∷ cs) ne e = ground (arith, mark-Keeps a x u cs)

-- The outcome of kfree of the block at `a`.
abbrev pub Released : ℕ → Heap → List Cell → Type 0
Released a h cs =
    (h' : Heap) × (ds : List Cell) × (kfree (a + header_size) h ≡ ok h')
    × IsHeap h' ds
    × Coalesced ds
    × ((x : ℕ) (u : Cell) → x ≢ a → cell_at x cs ≡ some u → u.free ≡ false → cell_at x ds ≡ some u)
    × (h'.bytes ≡ h.bytes)

-- kfree of a block of a well-formed heap ends and leaves a well-formed heap in which no two
-- neighbours are both free, every other used block is where it was with the size that it had, and
-- the payload bytes are untouched.
pub kfree-Coalesced :
    (a : ℕ) (h : Heap) (cs : List Cell) (c : Cell)
    → IsHeap h cs
    → cell_at a cs ≡ some c
    → Released a h cs
kfree-Coalesced a h cs c is e =
    let (h', run, is', same) = kfree-coalesce a h cs c is e in
    (
      h',
      coalesce (mark a cs),
      run,
      is',
      coalesce-Coalesced (mark a cs),
      λ x u ne at used. coalesce-Keeps (mark a cs) x u (mark-Keeps a x u cs ne at) used,
      same,
    )

head_free-mark_alloc :
    (n p end ptr : ℕ) (cs : List Cell)
    → Tiles p end cs
    → alloc_ptr n cs ≡ ptr
    → ptr ≢ 0
    → head_free (mark (ptr - header_size) (alloc_cells n cs)) ≡ head_free cs
unfolding mark alloc_cells alloc_ptr
head_free-mark_alloc n p end ptr [] t e ne = absurd (ne (sym e))
head_free-mark_alloc n p end ptr (c ∷ cs) t e ne = elim (Bool-cases (fits n c)) [
  | inl hit ↦ ground arith
  | inr miss ↦
      let (_, above) =
        alloc_cells-Granted n (p + header_size + c.size) end ptr cs t.1 (rw miss at e) ne in
      ground arith
]

-- Freeing what first fit took gives the list of blocks back.
coalesce-mark-alloc :
    (n p end ptr : ℕ) (cs : List Cell)
    → Tiles p end cs
    → Coalesced cs
    → alloc_ptr n cs ≡ ptr
    → ptr ≢ 0
    → coalesce (mark (ptr - header_size) (alloc_cells n cs)) ≡ cs
unfolding coalesce mark alloc_cells alloc_ptr
coalesce-mark-alloc n p end ptr [] t k e ne = refl
coalesce-mark-alloc n p end ptr (c ∷ cs) t k e ne = elim (Bool-cases (fits n c)) [
  | inl hit ↦
      let e' : c.addr + header_size ≡ ptr = rw hit at e in
      let here : (c.addr == ptr - header_size) ≡ true = ground arith in
      elim (Bool-cases (leb (n + header_size + 8) c.size)) [
        | inl split ↦
            let r : Cell = cell (c.addr + header_size + n) (c.size - n - header_size) true in
            let whole : merged (cell c.addr n true) r ≡ c = ground arith in
            rw (hit, split, here)
              (join-both (cell c.addr n true) r cs refl ∙ rw whole (join_of_Coalesced c cs k))
        | inr whole ↦
            let same : cell c.addr c.size true ≡ c = ground arith in
            rw (hit, whole, here, same) (join_of_Coalesced c cs k)
      ]
  | inr miss ↦
      let (_, above) =
        alloc_cells-Granted n (p + header_size + c.size) end ptr cs t.1 (rw miss at e) ne in
      let other : (c.addr == ptr - header_size) ≡ false = ground arith in
      rw (miss, other)
        (join-cons c _ cs
          (coalesce-mark-alloc n (p + header_size + c.size) end ptr cs t.1 k.1 (rw miss at e) ne)
          (head_free-mark_alloc n (p + header_size + c.size) end ptr cs t.1 (rw miss at e) ne) k)
]

-- In a heap with no free neighbours, kfree of what kmalloc returned gives back the list of blocks
-- that stood before the allocation.
pub kfree-kmalloc :
    (size : ℕ) (h : Heap) (cs : List Cell)
    → IsHeap h cs
    → Coalesced cs
    → 0 < size
    → alloc_ptr (align8 size) cs ≢ 0
    → (h' : Heap) × ((kmalloc size h >>= λ (ptr, g). kfree ptr g) ≡ ok h')
      × IsHeap h' cs
      × (h'.bytes ≡ h.bytes)
kfree-kmalloc size h cs is k pos ne =
    let n : ℕ = align8 size in
    let ptr : ℕ = alloc_ptr n cs in
    let (g, run, is', same) = kmalloc-alloc_cells size h cs is pos in
    let ((c, at, _, _, _, _, _), above) =
      alloc_cells-Granted n h.start (h.start + h.total) ptr cs is.tiles refl ne in
    let (h', run', is'', same') =
      kfree-coalesce (ptr - header_size) g (alloc_cells n cs) c is' at in
    let back : ptr - header_size + header_size ≡ ptr = omega arith in
    (
      h',
      rw run (rw back at run'),
      rw (coalesce-mark-alloc n h.start (h.start + h.total) ptr cs is.tiles k refl ne) at is'',
      same' ∙ same,
    )
