-- ===== src/Alloc/Calloc.antt =====
-- lib/alloc.c: kcalloc, kalloc_init, and what the size and magic checks do not catch.
use neko_os_c.Prelude.{
  ℕ, ◌+◌, ◌-◌, ◌*◌, ◌%◌, ◌^◌, ◌≤◌, ◌<◌, ◌≡◌, refl, ◌≢◌, Bool, true, false, ◌&&◌, not, List, [], ◌∷◌,
  arith, ◌==◌, ltb, if◌then◌else◌, u64, ok, panic, Bool-cases, inl, inr,
}
use neko_os_c.Mem.{memset}
use neko_os_c.Mem.Copy.{within, memset-eq}
use neko_os_c.Alloc.{header_size, block, put, Heap, kmalloc, align8, kcalloc, kalloc_init}
use neko_os_c.Alloc.Cells.{Cell, cell, Tiles, IsHeap, Tiles-le}
use neko_os_c.Alloc.Kmalloc.{alloc_cells, alloc_ptr, kmalloc-alloc_cells}
use neko_os_c.Alloc.Promise.{Keeps, Granted, NoneFits, kmalloc-Granted}

-- kalloc_init makes one free block of the whole region, or panics if the region has no room for a
-- header.
pub kalloc_init_lem :
    (start size : ℕ) (h : Heap)
    → 0 < start
    → start + size + 8 ≤ 2 ^ 64
    → ((size < header_size → kalloc_init start size h ≡ panic))
      × ((header_size ≤ size
          → (h' : Heap) × (kalloc_init start size h ≡ ok h')
            × IsHeap h' (cell start (size - header_size) true ∷ [])))
unfolding kalloc_init
kalloc_init_lem start size h pos bound = (
  λ small. let t : ltb size header_size ≡ true = ground arith in rw t,
  λ large.
      let t : ltb size header_size ≡ false = ground arith in
      (
        record h {
          start = start;
          total = size;
          headers = put h.headers start (block (size - header_size) 0 true);
        },
        rw t,
        record {
          linked = (unfold put in ground arith, tt);
          tiles = (refl, omega arith);
          first = refl;
          positive = pos;
          bounded = bound;
        },
      ),
)

-- The outcome of kcalloc.
abbrev pub Zeroed : ℕ → ℕ → Heap → List Cell → Type 0
Zeroed nmemb size h cs =
    (ptr : ℕ) × (h' : Heap) × (ds : List Cell) × (kcalloc nmemb size h ≡ ok (ptr, h'))
    × IsHeap h' ds
    × Keeps cs ds
    × ((ptr ≢ 0 → Granted (nmemb * size) ptr cs ds))
    × ((x : ℕ)
        → h'.bytes x ≡ (if not (ptr == 0) && within ptr (nmemb * size) x then 0 else h.bytes x))

-- kcalloc of a product that is not 0 and lies at least 8 below 2 ^ 64 keeps the heap well formed and
-- every used block in place. A pointer that is not null stands behind a block that was free, is now
-- used and has room for the product; those bytes are 0 and no other byte has changed.
pub kcalloc-Zeroed :
    (nmemb size : ℕ) (h : Heap) (cs : List Cell)
    → IsHeap h cs
    → 0 < nmemb * size
    → nmemb * size + 8 ≤ 2 ^ 64
    → Zeroed nmemb size h cs
unfolding kcalloc
kcalloc-Zeroed nmemb size h cs is pos fits64 =
    let total : ℕ = nmemb * size in
    let wrapped : u64 (nmemb * size) ≡ nmemb * size = omega arith in
    let (ptr, h', ds, run, is', keeps, granted, _, same) =
      kmalloc-Granted total h cs is pos fits64 in
    elim (Bool-cases (ptr == 0)) [
      | inl null ↦ (ptr, h', ds, rw (wrapped, run, null), is', keeps, granted, λ x. rw (null, same))
      | inr got ↦ (
        ptr,
        record h' { bytes = memset ptr 0 total h'.bytes },
        ds,
        rw (wrapped, run, got),
        record {
          linked = is'.linked;
          tiles = is'.tiles;
          first = is'.first;
          positive = is'.positive;
          bounded = is'.bounded;
        },
        keeps,
        granted,
        λ x. rw (got, memset-eq ptr 0 total h'.bytes x, same),
      )
    ]

-- A product of 2 ^ 64 or more is not noticed: kcalloc serves the request for what is left of it.
pub kcalloc_wraps :
    (nmemb size : ℕ) (h : Heap)
    → 2 ^ 64 ≤ nmemb * size
    → kcalloc nmemb size h ≡ kcalloc 1 (nmemb * size % 2 ^ 64) h
unfolding kcalloc
kcalloc_wraps nmemb size h big =
    let e : u64 (1 * (nmemb * size % 2 ^ 64)) ≡ u64 (nmemb * size) = omega arith in rw e

-- Some block is free.
abbrev pub has_free : List Cell → Bool
has_free [] = false
has_free (c ∷ cs) = elim c.free [ true ↦ true | false ↦ has_free cs ]

alloc_ptr-has_free : (cs : List Cell) → has_free cs ≡ true → 0 < alloc_ptr 0 cs
unfolding alloc_ptr
alloc_ptr-has_free [] e = absurd (cc)
alloc_ptr-has_free (c ∷ cs) e = ground (arith, alloc_ptr-has_free cs)

too_large-NoneFits : (n p end : ℕ) (cs : List Cell) → Tiles p end cs → end < n → NoneFits n cs
too_large-NoneFits n p end [] t big = tt
too_large-NoneFits n p end (c ∷ cs) t big = (
  ground (arith, Tiles-le (p + header_size + c.size) end cs t.1),
  too_large-NoneFits n (p + header_size + c.size) end cs t.1 big,
)

-- A request in the last 7 below 2 ^ 64 wraps to 0 when it is rounded up: kmalloc then returns a
-- pointer if any block is free, although no block has room for the request.
pub kmalloc_wraps :
    (size : ℕ) (h : Heap) (cs : List Cell)
    → IsHeap h cs
    → 2 ^ 64 ≤ size + 7
    → size < 2 ^ 64
    → has_free cs ≡ true
    → NoneFits size cs
      × (ptr : ℕ) × (h' : Heap) × (kmalloc size h ≡ ok (ptr, h'))
      × (0 < ptr)
      × IsHeap h' (alloc_cells 0 cs)
kmalloc_wraps size h cs is low high some_free =
    let e : align8 size ≡ 0 = omega arith in
    let (h', run, is', _) = kmalloc-alloc_cells size h cs is (omega arith) in
    (
      too_large-NoneFits size h.start (h.start + h.total) cs is.tiles
          (let bound = is.bounded in omega arith),
      alloc_ptr 0 cs,
      h',
      rw e at run,
      alloc_ptr-has_free cs some_free,
      rw e at is',
    )
