-- ===== src/Alloc/Promise.antt =====
-- lib/alloc.c: what a caller of kmalloc is promised.
use neko_os_c.Prelude.{
  ℕ, ◌+◌, ◌-◌, ◌^◌, ◌≤◌, ◌<◌, ◌≡◌, refl, sym, ◌≢◌, true, false, none, some, List, [], ◌∷◌, arith,
  ◌==◌, leb, ok, Bool-cases, inl, inr,
}
use neko_os_c.Alloc.{header_size, Heap, kmalloc, align8}
use neko_os_c.Alloc.Cells.{Cell, cell, Tiles, IsHeap, cell_at}
use neko_os_c.Alloc.Kmalloc.{fits, alloc_cells, alloc_ptr, align8-le, kmalloc-alloc_cells}

pub cell_at-below : (a p end : ℕ) (cs : List Cell) → a < p → Tiles p end cs → cell_at a cs ≡ none
cell_at-below a p end [] lt t = refl
cell_at-below a p end (c ∷ cs) lt t =
    let ne : (c.addr == a) ≡ false = ground arith in
    rw ne (cell_at-below a (p + header_size + c.size) end cs (omega arith) t.1)

-- Every used block is still there, where it was and with the same size.
abbrev pub Keeps : List Cell → List Cell → Type 0
Keeps cs ds = (a : ℕ) (c : Cell) → cell_at a cs ≡ some c → c.free ≡ false → cell_at a ds ≡ some c

alloc_cells-Keeps : (n p end : ℕ) (cs : List Cell) → Tiles p end cs → Keeps cs (alloc_cells n cs)
unfolding alloc_cells
alloc_cells-Keeps n p end [] t a c e used = e
alloc_cells-Keeps n p end (d ∷ cs) t a c e used = ground (
  arith,
  alloc_cells-Keeps n (p + header_size + d.size) end cs t.1 a c,
  cell_at-below a (p + header_size + d.size) end cs,
)

-- The returned block is used and large enough; before the call no used block stood there.
abbrev pub Granted : ℕ → ℕ → List Cell → List Cell → Type 0
Granted n ptr cs ds =
    (c : Cell) × (cell_at (ptr - header_size) ds ≡ some c)
    × (c.free ≡ false)
    × (n ≤ c.size)
    × (d : Cell) × (cell_at (ptr - header_size) cs ≡ some d)
    × (d.free ≡ true)

pub alloc_cells-Granted :
    (n p end ptr : ℕ) (cs : List Cell)
    → Tiles p end cs
    → alloc_ptr n cs ≡ ptr
    → ptr ≢ 0
    → Granted n ptr cs (alloc_cells n cs) × (p + header_size ≤ ptr)
unfolding alloc_cells alloc_ptr
alloc_cells-Granted n p end ptr [] t e ne = absurd (ne (sym e))
alloc_cells-Granted n p end ptr (d ∷ cs) t e ne = elim (Bool-cases (fits n d)) [
  | inl hit ↦
      let e' : d.addr + header_size ≡ ptr = rw hit at e in
      let here : (d.addr == ptr - header_size) ≡ true = ground arith in
      elim (Bool-cases (leb (n + header_size + 8) d.size)) [
        | inl split ↦
            rw (hit, split, here)
              ((cell d.addr n false, refl, refl, ground arith, d, refl, ground arith), omega arith)
        | inr whole ↦
            rw (hit, whole, here)
              (
                (cell d.addr d.size false, refl, refl, ground arith, d, refl, ground arith),
                omega arith,
              )
      ]
  | inr miss ↦
      let (granted, above) =
        alloc_cells-Granted n (p + header_size + d.size) end ptr cs t.1 (rw miss at e) ne in
      let other : (d.addr == ptr - header_size) ≡ false = ground arith in
      rw (miss, other) (granted, omega arith)
]

-- No free block has room for `n` bytes.
abbrev pub NoneFits : ℕ → List Cell → Type 0
NoneFits n [] = Unit {0}
NoneFits n (c ∷ cs) = (fits n c ≡ false) × NoneFits n cs

alloc_ptr-NoneFits : (n : ℕ) (cs : List Cell) → alloc_ptr n cs ≡ 0 → NoneFits n cs
unfolding alloc_ptr
alloc_ptr-NoneFits n [] e = tt
alloc_ptr-NoneFits n (c ∷ cs) e = elim (Bool-cases (fits n c)) [
  | inl hit ↦ absurd (ground arith)
  | inr miss ↦ (miss, alloc_ptr-NoneFits n cs (rw miss at e))
]

alloc_cells-NoneFits : (n : ℕ) (cs : List Cell) → NoneFits n cs → alloc_cells n cs ≡ cs
unfolding alloc_cells
alloc_cells-NoneFits n [] f = refl
alloc_cells-NoneFits n (c ∷ cs) f = rw (f.0, alloc_cells-NoneFits n cs f.1)

-- The outcome of kmalloc, by cases on the pointer.
abbrev pub Served : ℕ → Heap → List Cell → Type 0
Served size h cs =
    (ptr : ℕ) × (h' : Heap) × (ds : List Cell) × (kmalloc size h ≡ ok (ptr, h'))
    × IsHeap h' ds
    × Keeps cs ds
    × ((ptr ≢ 0 → Granted size ptr cs ds))
    × ((ptr ≡ 0 → NoneFits (align8 size) cs × (ds ≡ cs)))
    × (h'.bytes ≡ h.bytes)

-- kmalloc of a well-formed heap ends, and leaves a well-formed heap in which every used block is
-- where it was. A pointer that is not null stands behind the header of a block that was free, is now
-- used, and has room for the request; the null pointer is returned only if no free block has room
-- for the rounded request, and then the list of blocks is what it was. The payload bytes are
-- untouched. The request must lie at least 8 below 2 ^ 64.
pub kmalloc-Granted :
    (size : ℕ) (h : Heap) (cs : List Cell)
    → IsHeap h cs
    → 0 < size
    → size + 8 ≤ 2 ^ 64
    → Served size h cs
kmalloc-Granted size h cs is pos fits64 =
    let n : ℕ = align8 size in
    let (h', run, is', same) = kmalloc-alloc_cells size h cs is pos in
    (
      alloc_ptr n cs,
      h',
      alloc_cells n cs,
      run,
      is',
      alloc_cells-Keeps n h.start (h.start + h.total) cs is.tiles,
      λ ne.
          let ((c, at, used, room, d, was, free), _) =
            alloc_cells-Granted n h.start (h.start + h.total) (alloc_ptr n cs) cs is.tiles refl
              ne in
          (c, at, used, omega (arith, align8-le size fits64), d, was, free),
      λ e.
          let none_fits = alloc_ptr-NoneFits n cs e in
          (none_fits, alloc_cells-NoneFits n cs none_fits),
      same,
    )
