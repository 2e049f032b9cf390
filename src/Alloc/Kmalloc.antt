-- ===== src/Alloc/Kmalloc.antt =====
-- lib/alloc.c: kmalloc takes the first block that fits, as a function of the list of blocks.
use neko_os_c.Prelude.{
  ℕ, zero, suc, ◌+◌, ◌-◌, ◌^◌, ◌≤◌, ◌<◌, ◌≡◌, refl, sym, ap, ◌∙◌, Bool, true, false, ◌&&◌, List, [],
  ◌∷◌, arith, ◌==◌, leb, leb→le, if◌then◌else◌, length, u64, ok, Bool-cases, inl, inr,
}
use neko_os_c.Alloc.{
  header_size, Block, block, Headers, put, Heap, rounds, take_block, kmalloc_loop, kmalloc, align8,
}
use neko_os_c.Alloc.Cells.{
  Cell, cell, head_addr, Linked, Tiles, IsHeap, Tiles-le, Linked-put_below, rounds_enough,
}

abbrev pub fits : ℕ → Cell → Bool
fits n c = c.free && leb n c.size

-- The used block, and the free block that is split off where there is room for one.
abbrev pub taken : ℕ → Cell → List Cell → List Cell
taken n c cs =
    if leb (n + header_size + 8) c.size
    then cell c.addr n false ∷ cell (c.addr + header_size + n) (c.size - n - header_size) true ∷ cs
    else cell c.addr c.size false ∷ cs

-- First fit.
unfoldable pub alloc_cells : ℕ → List Cell → List Cell
alloc_cells n [] = []
alloc_cells n (c ∷ cs) = if fits n c then taken n c cs else c ∷ alloc_cells n cs

-- The pointer that goes with it: behind the header of the block, or null.
unfoldable pub alloc_ptr : ℕ → List Cell → ℕ
alloc_ptr n [] = 0
alloc_ptr n (c ∷ cs) = if fits n c then c.addr + header_size else alloc_ptr n cs

pub head_addr-alloc_cells : (n : ℕ) (cs : List Cell) → head_addr (alloc_cells n cs) ≡ head_addr cs
unfolding alloc_cells
head_addr-alloc_cells n [] = refl
head_addr-alloc_cells n (c ∷ cs) = ground arith

module _ (n : ℕ) (m : Headers) (c : Cell) (cs : List Cell) (p end : ℕ)
    (tiles : Tiles p end (c ∷ cs)) (linked : Linked m (c ∷ cs)) (hit : fits n c ≡ true)
    (pos : 0 < p) (bound : end + 8 ≤ 2 ^ 64) where
  room : p + header_size + c.size ≤ end
  room = Tiles-le (p + header_size + c.size) end cs tiles.1

  small : n ≤ c.size
  small = ground arith

  -- The headers behind the block are out of reach of the writes.
  rest-Linked : (a : ℕ) (b : Block) → a < p + header_size + c.size → Linked (put m a b) cs
  rest-Linked a b lt = Linked-put_below m a b (p + header_size + c.size) end cs lt tiles.1 linked.1

  no_wrap : u64 (n + header_size + 8) ≡ n + header_size + 8
  no_wrap = omega (arith, room, small)

  -- What kmalloc writes, without the wrap-around that the bounds rule out.
  take_block-split :
      leb (n + header_size + 8) c.size ≡ true
      → take_block c.addr n m
        ≡ put
            (put m
              (c.addr + header_size + n)
              (block (c.size - n - header_size) (head_addr cs) true))
            c.addr
            (block n (c.addr + header_size + n) false)
  unfolding take_block
  take_block-split split =
      let le : n + header_size + 8 ≤ c.size = leb→le _ _ split in
      let at : u64 (c.addr + header_size + n) ≡ c.addr + header_size + n = omega (arith, room) in
      let left : u64 (c.size + 2 ^ 64 - n - header_size) ≡ c.size - n - header_size =
        omega (arith, room) in
      rw (linked.0, no_wrap, split, at, left)

  take_block-whole :
      leb (n + header_size + 8) c.size ≡ false
      → take_block c.addr n m ≡ put m c.addr (block c.size (head_addr cs) false)
  unfolding take_block
  take_block-whole whole = rw (linked.0, no_wrap, whole)

  take_block-Linked : Linked (take_block c.addr n m) (taken n c cs)
  take_block-Linked = elim (Bool-cases (leb (n + header_size + 8) c.size)) [
    | inl split ↦
        rw (take_block-split split, split)
          (
            unfold put in ground (arith, room),
            (
              unfold put in ground (arith, room),
              Linked-put_below _ _ _ (p + header_size + c.size) end cs (omega arith) tiles.1
                  (rest-Linked _ _ (ground arith)),
            ),
          )
    | inr whole ↦
        rw (take_block-whole whole, whole)
          (unfold put in ground arith, rest-Linked _ _ (omega arith))
  ]

  take_block-Tiles : Tiles p end (taken n c cs)
  take_block-Tiles = elim (Bool-cases (leb (n + header_size + 8) c.size)) [
    | inl split ↦
        let e : p + header_size + n + header_size + (c.size - n - header_size)
            ≡ p + header_size + c.size =
          ground arith in
        rw split (omega arith, (omega arith, rw e tiles.1))
    | inr whole ↦ rw whole (omega arith, tiles.1)
  ]

  take_block-below : (q : ℕ) → q < p → take_block c.addr n m q ≡ m q
  take_block-below q lt = elim (Bool-cases (leb (n + header_size + 8) c.size)) [
    | inl split ↦ rw (take_block-split split) (unfold put in ground arith)
    | inr whole ↦ rw (take_block-whole whole) (unfold put in ground arith)
  ]

-- One round of the loop at a block, and the rounds that follow.
module _ (f p n : ℕ) (m : Headers) (b : Block) (nonnull : (p == 0) ≡ false) (at : m p ≡ b) where
  kmalloc_loop-hit :
      (b.free && leb n b.size) ≡ true
      → kmalloc_loop (suc f) p n m ≡ ok (u64 (p + header_size), take_block p n m)
  unfolding kmalloc_loop
  kmalloc_loop-hit hit = rw (kmalloc_loop, nonnull, at, hit)

  kmalloc_loop-miss :
      (b.free && leb n b.size) ≡ false → kmalloc_loop (suc f) p n m ≡ kmalloc_loop f b.next n m
  unfolding kmalloc_loop
  kmalloc_loop-miss miss =
      let here : ((m p).free && leb n (m p).size) ≡ false = rw at miss in
      rw (kmalloc_loop, nonnull, here) (ap (λ (c : Block). kmalloc_loop f c.next n m) at)

-- From the block `p` on, the loop takes the first block that fits.
kmalloc_loop_lem :
    (f n p end : ℕ) (m : Headers) (cs : List Cell)
    → length cs < f
    → 0 < p
    → end + 8 ≤ 2 ^ 64
    → Tiles p end cs
    → Linked m cs
    → (m' : Headers) × (kmalloc_loop f (head_addr cs) n m ≡ ok (alloc_ptr n cs, m'))
      × Linked m' (alloc_cells n cs)
      × Tiles p end (alloc_cells n cs)
      × ((q : ℕ) → q < p → m' q ≡ m q)
unfolding alloc_ptr alloc_cells
kmalloc_loop_lem zero n p end m cs fuel pos bound t l = absurd (omega arith)
kmalloc_loop_lem (suc f) n p end m [] fuel pos bound t l =
    (m, unfold kmalloc_loop in refl, tt, t, λ q lt. refl)
kmalloc_loop_lem (suc f) n p end m (c ∷ cs) fuel pos bound t l = elim (Bool-cases (fits n c)) [
  | inl hit ↦ (
    take_block c.addr n m,
    kmalloc_loop-hit f c.addr n m _ nonnull l.0 hit ∙ rw (at, hit),
    rw hit (take_block-Linked n m c cs p end t l hit pos bound),
    rw hit (take_block-Tiles n m c cs p end t l hit pos bound),
    take_block-below n m c cs p end t l hit pos bound,
  )
  | inr miss ↦
      let (m', run, l', t', same) =
        kmalloc_loop_lem f n (p + header_size + c.size) end m cs (omega arith) (omega arith) bound
          t.1 l.1 in
      (
        m',
        rw miss (kmalloc_loop-miss f c.addr n m _ nonnull l.0 miss ∙ run),
        rw (miss, head_addr-alloc_cells n cs) (same c.addr (omega arith) ∙ l.0, l'),
        rw miss (t.0, t'),
        λ q lt. same q (omega arith),
      )
]
  where
    nonnull : (c.addr == 0) ≡ false
    nonnull = ground arith

    at : u64 (c.addr + header_size) ≡ c.addr + header_size
    at = omega (arith, Tiles-le (p + header_size + c.size) end cs t.1)

-- The request rounded up to a multiple of 8.
pub align8-le : (size : ℕ) → size + 8 ≤ 2 ^ 64 → size ≤ align8 size
align8-le size h = omega arith

kmalloc-run :
    (size ptr : ℕ) (h : Heap) (m : Headers)
    → 0 < size
    → kmalloc_loop (suc (rounds h)) h.start (align8 size) h.headers ≡ ok (ptr, m)
    → kmalloc size h ≡ ok (ptr, record h { headers = m })
unfolding kmalloc
kmalloc-run size ptr h m pos run =
    let nonzero : (size == 0) ≡ false = ground arith in rw (nonzero, run)

-- kmalloc of a well-formed heap does what first fit does with the list of blocks, answers the null
-- pointer exactly where first fit finds nothing, and leaves a well-formed heap; the rounds suffice.
pub kmalloc-alloc_cells :
    (size : ℕ) (h : Heap) (cs : List Cell)
    → IsHeap h cs
    → 0 < size
    → (h' : Heap) × (kmalloc size h ≡ ok (alloc_ptr (align8 size) cs, h'))
      × IsHeap h' (alloc_cells (align8 size) cs)
      × (h'.bytes ≡ h.bytes)
kmalloc-alloc_cells size h cs is pos =
    let n : ℕ = align8 size in
    let (m', run, l', t', same) =
      kmalloc_loop_lem (suc (rounds h)) n h.start (h.start + h.total) h.headers cs
        (omega (arith, rounds_enough h cs is)) is.positive is.bounded is.tiles is.linked in
    (
      record h { headers = m' },
      kmalloc-run size (alloc_ptr n cs) h m' pos
          (ap (λ (s : ℕ). kmalloc_loop (suc (rounds h)) s n h.headers) is.first ∙ run),
      record {
        linked = l';
        tiles = t';
        first = is.first ∙ sym (head_addr-alloc_cells n cs);
        positive = is.positive;
        bounded = is.bounded;
      },
      refl,
    )
