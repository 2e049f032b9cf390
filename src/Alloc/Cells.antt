-- ===== src/Alloc/Cells.antt =====
-- lib/alloc.c: the blocks of the heap as a list, in the order of their addresses.
use neko_os_c.Prelude.{
  Bool-cases, inl, inr, ℕ, ◌+◌, ◌*◌, ◌^◌, ◌≤◌, ◌<◌, ◌≡◌, Bool, Option, none, some, List, [], ◌∷◌,
  arith, ◌==◌, if◌then◌else◌, length,
}
use neko_os_c.Alloc.{header_size, Block, block, Headers, put, Heap, rounds}

pub record Cell : Type 0 where
  pub addr : ℕ
  pub size : ℕ
  pub free : Bool

abbrev pub cell : ℕ → ℕ → Bool → Cell
cell a n f = record { addr = a; size = n; free = f }

-- The address of the first block; the null pointer ends the list.
abbrev pub head_addr : List Cell → ℕ
head_addr [] = 0
head_addr (c ∷ cs) = c.addr

-- The headers hold the blocks, each with a pointer to the one behind it.
abbrev pub Linked : Headers → List Cell → Type 0
Linked m [] = Unit {0}
Linked m (c ∷ cs) = (m c.addr ≡ block c.size (head_addr cs) c.free) × Linked m cs

-- The blocks fill the addresses from `p` to `end` with no gap.
abbrev pub Tiles : ℕ → ℕ → List Cell → Type 0
Tiles p end [] = p ≡ end
Tiles p end (c ∷ cs) = (c.addr ≡ p) × Tiles (p + header_size + c.size) end cs

pub record IsHeap (h : Heap) (cs : List Cell) : Type 0 where
  pub linked : Linked h.headers cs
  pub tiles : Tiles h.start (h.start + h.total) cs
  pub first : h.start ≡ head_addr cs
  pub positive : 0 < h.start
  pub bounded : h.start + h.total + 8 ≤ 2 ^ 64

-- The block whose header stands at an address.
abbrev pub cell_at : ℕ → List Cell → Option Cell
cell_at a [] = none
cell_at a (c ∷ cs) = if c.addr == a then some c else cell_at a cs

pub Tiles-le : (p end : ℕ) (cs : List Cell) → Tiles p end cs → p ≤ end
Tiles-le p end [] t = omega arith
Tiles-le p end (c ∷ cs) t = omega (arith, Tiles-le (p + header_size + c.size) end cs t.1)

-- A header has 32 bytes, so there are at most total / 32 blocks.
pub length-le : (p end : ℕ) (cs : List Cell) → Tiles p end cs → header_size * length cs + p ≤ end
length-le p end [] t = omega arith
length-le p end (c ∷ cs) t = omega (arith, length-le (p + header_size + c.size) end cs t.1)

-- A write below the blocks leaves them linked.
pub Linked-put_below :
    (m : Headers) (a : ℕ) (b : Block) (p end : ℕ) (cs : List Cell)
    → a < p
    → Tiles p end cs
    → Linked m cs
    → Linked (put m a b) cs
unfolding put
Linked-put_below m a b p end [] lt t l = tt
Linked-put_below m a b p end (c ∷ cs) lt t l =
    (ground arith, Linked-put_below m a b (p + header_size + c.size) end cs (omega arith) t.1 l.1)

pub head_addr-pos :
    (p end : ℕ) (c : Cell) (cs : List Cell) → Tiles p end (c ∷ cs) → 0 < p → 0 < c.addr
head_addr-pos p end c cs t pos = omega arith

-- The fuel of the loops covers every block.
pub rounds_enough : (h : Heap) (cs : List Cell) → IsHeap h cs → length cs < rounds h
rounds_enough h cs is = omega (arith, length-le h.start (h.start + h.total) cs is.tiles)

-- A block lies inside the region.
pub cell_at-within :
    (a p end : ℕ) (cs : List Cell) (c : Cell)
    → Tiles p end cs
    → cell_at a cs ≡ some c
    → (p ≤ a) × (a + header_size + c.size ≤ end)
cell_at-within a p end [] c t e = absurd (cc)
cell_at-within a p end (d ∷ cs) c t e = elim (Bool-cases (d.addr == a)) [
  | inl here ↦
      let same : d ≡ c = ground arith in
      let below = Tiles-le (p + header_size + d.size) end cs t.1 in
      (ground arith, rw (← same) (ground arith))
  | inr other ↦
      let (low, high) = cell_at-within a (p + header_size + d.size) end cs c t.1 (rw other at e) in
      (omega arith, high)
]
