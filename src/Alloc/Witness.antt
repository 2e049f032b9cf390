-- ===== src/Alloc/Witness.antt =====
-- lib/alloc.c at a heap of one used and one free block: tests, and the theorems at that heap.
use neko_os_c.Prelude.{ℕ, ◌-◌, ◌^◌, ◌<◌, ◌≡◌, refl, true, false, List, [], ◌∷◌, arith, ok, ◌>>=◌}
use neko_os_c.Alloc.{block, put, Heap, kalloc_init, kmalloc, kfree}
use neko_os_c.Alloc.Cells.{Cell, cell, IsHeap}
use neko_os_c.Alloc.Kmalloc.{alloc_cells, alloc_ptr}
use neko_os_c.Alloc.Promise.{Served, NoneFits, kmalloc-Granted}
use neko_os_c.Alloc.Roundtrip.{Released, kfree-Coalesced, kfree-kmalloc}
use neko_os_c.Alloc.Calloc.{Zeroed, kcalloc-Zeroed, kmalloc_wraps}

abbrev blank : Heap
blank = record { start = 0; total = 0; headers = λ _. block 0 0 false; bytes = λ _. 7 }

-- 256 bytes at 0x1000: 16 used bytes, then 176 free ones.
abbrev heap : Heap
heap = record {
  start = 0x1000;
  total = 256;
  headers =
      put (put (λ _. block 0 0 false) 0x1030 (block 176 0 true)) 0x1000 (block 16 0x1030 false);
  bytes = λ _. 7;
}

abbrev cells : List Cell
cells = cell 0x1000 16 false ∷ cell 0x1030 176 true ∷ []

heap-IsHeap : IsHeap heap cells
unfolding put
heap-IsHeap = record {
  linked = (refl, (refl, tt));
  tiles = (refl, (refl, refl));
  first = refl;
  positive = omega arith;
  bounded = omega arith;
}

-- From an empty region: an allocation of 10 bytes takes 16, and 176 are left.
init_then_kmalloc :
    (kalloc_init 0x1000 256 blank >>= kmalloc 10)
    ≡ ok (
      0x1020,
      record heap {
        headers =
            put
              (put (put (λ _. block 0 0 false) 0x1000 (block 224 0 true)) 0x1030 (block 176 0 true))
              0x1000
              (block 16 0x1030 false);
      },
    )
unfolding kalloc_init kmalloc put
init_then_kmalloc = refl

kmalloc-Granted_example : Served 10 heap cells
kmalloc-Granted_example = kmalloc-Granted 10 heap cells heap-IsHeap (omega arith) (omega arith)

kfree-Coalesced_example : Released 0x1000 heap cells
kfree-Coalesced_example = kfree-Coalesced 0x1000 heap cells (cell 0x1000 16 false) heap-IsHeap refl

kfree-kmalloc_example :
    (h' : Heap) × ((kmalloc 10 heap >>= λ (ptr, g). kfree ptr g) ≡ ok h')
    × IsHeap h' cells
    × (h'.bytes ≡ heap.bytes)
unfolding alloc_ptr
kfree-kmalloc_example =
    kfree-kmalloc 10 heap cells heap-IsHeap (refl, (refl, tt)) (omega arith) (omega arith)

kcalloc-Zeroed_example : Zeroed 4 10 heap cells
kcalloc-Zeroed_example = kcalloc-Zeroed 4 10 heap cells heap-IsHeap (omega arith) (omega arith)

kmalloc_wraps_example :
    NoneFits (2 ^ 64 - 1) cells
    × (ptr : ℕ) × (h' : Heap) × (kmalloc (2 ^ 64 - 1) heap ≡ ok (ptr, h'))
    × (0 < ptr)
    × IsHeap h' (alloc_cells 0 cells)
kmalloc_wraps_example =
    kmalloc_wraps (2 ^ 64 - 1) heap cells heap-IsHeap (omega arith) (omega arith) refl
