-- ===== src/Alloc.antt =====
-- lib/alloc.c: the kernel heap, a singly linked list of block headers inside the region that it
-- hands out.
pub mod Cells
pub mod Kmalloc
pub mod Promise
pub mod Kfree
pub mod Roundtrip
pub mod Calloc
pub mod Magic
mod Witness
use neko_os_c.Prelude.{
  ℕ, zero, suc, ◌+◌, ◌-◌, ◌*◌, ◌/◌, ◌^◌, ◌%◌, Bool, true, false, ◌&&◌, not, ◌==◌, ltb, leb,
  if◌then◌else◌, u64, clear_low, Run, ok, panic, out_of_fuel, ◌>>=◌,
}
use neko_os_c.Mem.{Bytes, memset}

abbrev pub heap_magic : ℕ
heap_magic = 0xF00DF00D

-- sizeof(heap_block_t) on x86-64, with its padding.
abbrev pub header_size : ℕ
header_size = 32

-- heap_block_t. The null pointer is 0.
pub record Block : Type 0 where
  pub magic : ℕ
  pub size : ℕ
  pub next : ℕ
  pub free : Bool

-- A header as kalloc_init and kmalloc write one.
abbrev pub block : ℕ → ℕ → Bool → Block
block size next free = record { magic = heap_magic; size = size; next = next; free = free }

-- What a read of a header at each address finds there.
abbrev pub Headers : Type 0
Headers = ℕ → Block

unfoldable pub put : Headers → ℕ → Block → Headers
put m p b q = if q == p then b else m q

-- `g_heap_start`, `g_heap_total_size`, the headers, and the bytes between them.
pub record Heap : Type 0 where
  pub start : ℕ
  pub total : ℕ
  pub headers : Headers
  pub bytes : Bytes

unfoldable pub kalloc_init : ℕ → ℕ → Heap → Run Heap
unfolding put
kalloc_init start size h =
    if ltb size header_size
    then panic
    else ok (record h {
      start = start;
      total = size;
      headers = put h.headers start (block (size - header_size) 0 true);
    })

-- `(size + 7) & ~7` on size_t, which wraps.
abbrev pub align8 : ℕ → ℕ
align8 size = clear_low 3 (u64 (size + 7))

-- Splits the block at `p` if the rest has room for a header and 8 bytes, and marks it used.
unfoldable pub take_block : ℕ → ℕ → Headers → Headers
unfolding put
take_block p size m =
    let b = m p in
    let rest = u64 (p + header_size + size) in
    if leb (u64 (size + header_size + 8)) b.size
    then put (put m rest (block (u64 (b.size + 2 ^ 64 - size - header_size)) b.next true)) p
        (record b { size = size; next = rest; free = false })
    else put m p (record b { free = false })

-- The walk of kmalloc from the block `p` on: the pointer that is returned, and the headers.
pub kmalloc_loop : ℕ → (p size : ℕ) → Headers → Run (ℕ × Headers)
kmalloc_loop zero p size m = out_of_fuel
kmalloc_loop (suc f) p size m = elim (p == 0) [
  | true ↦ ok (0, m)
  | false ↦ elim ((m p).free && leb size (m p).size) [
    | true ↦ ok (u64 (p + header_size), take_block p size m)
    | false ↦ kmalloc_loop f (m p).next size m
  ]
]

-- One round more than there is room for headers.
abbrev pub rounds : Heap → ℕ
rounds h = suc (h.total / header_size)

unfoldable pub kmalloc : ℕ → Heap → Run (ℕ × Heap)
unfolding kmalloc_loop take_block
kmalloc size h =
    if size == 0
    then ok (0, h)
    else (kmalloc_loop (suc (rounds h)) h.start (align8 size) h.headers >>= λ (p, m).
        ok (p, record h { headers = m }))

-- The loop of kfree from the block `p` on: joins each free block with the free blocks behind it.
pub coalesce_loop : ℕ → ℕ → Headers → Run Headers
coalesce_loop zero p m = out_of_fuel
coalesce_loop (suc f) p m =
    let b = m p in
    let n = m b.next in
    elim (p == 0) [
      | true ↦ ok m
      | false ↦ elim (b.free && (not (b.next == 0) && n.free)) [
        | true ↦
            coalesce_loop f p
              (put m p (record b { size = u64 (b.size + (header_size + n.size)); next = n.next }))
        | false ↦ coalesce_loop f b.next m
      ]
    ]

unfoldable pub kfree : ℕ → Heap → Run Heap
unfolding coalesce_loop put
kfree ptr h =
    let p = u64 (ptr + 2 ^ 64 - header_size) in
    if ptr == 0
    then ok h
    else if (h.headers p).magic == heap_magic
    then (coalesce_loop (suc (rounds h)) h.start
          (put h.headers p (record (h.headers p) { free = true }))
        >>= λ m. ok (record h { headers = m }))
    else panic

unfoldable pub kcalloc : ℕ → ℕ → Heap → Run (ℕ × Heap)
unfolding kmalloc memset
kcalloc nmemb size h =
    let total = u64 (nmemb * size) in
    kmalloc total h >>= λ (p, h').
    if p == 0 then ok (p, h') else ok (p, record h' { bytes = memset p 0 total h'.bytes })
