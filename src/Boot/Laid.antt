-- ===== src/Boot/Laid.antt =====
-- The heap of lib/alloc.c with the first tasks of drivers/scheduler.c in it, one behind the other.
use neko_os_c.Prelude.{
  ℕ, zero, suc, ◌+◌, ◌-◌, ◌*◌, ◌≤◌, ◌≡◌, ap, ◌∙◌, true, false, leb, List, [], ◌∷◌, arith,
}
use neko_os_c.Alloc.{header_size, align8}
use neko_os_c.Alloc.Cells.{Cell, cell}
use neko_os_c.Alloc.Kmalloc.{alloc_cells, alloc_ptr}
use neko_os_c.Context.{task_size}

-- What a task takes of the heap.
abbrev pub task_block : ℕ
task_block = 16456

-- `n` tasks from the block `a` on, and behind them a free block with what they leave of `size`.
abbrev pub laid : (n a size : ℕ) → List Cell
laid zero a size = cell a size true ∷ []
laid (suc n) a size = cell a task_size false ∷ laid n (a + task_block) (size - task_block)

abbrev pub task_addr : (start i : ℕ) → ℕ
task_addr start i = start + header_size + i * task_block

pub laid-alloc_ptr :
    (n a size : ℕ)
    → suc n * task_block + 8 ≤ size
    → alloc_ptr (align8 task_size) (laid n a size) ≡ task_addr a n
unfolding alloc_ptr
laid-alloc_ptr zero a size room =
    let hit : leb (align8 task_size) size ≡ true = ground arith in rw hit (omega arith)
laid-alloc_ptr (suc n) a size room =
    laid-alloc_ptr n (a + task_block) (size - task_block) (omega arith) ∙ omega arith

pub laid-alloc_cells :
    (n a size : ℕ)
    → suc n * task_block + 8 ≤ size
    → alloc_cells (align8 task_size) (laid n a size) ≡ laid (suc n) a size
unfolding alloc_cells
laid-alloc_cells zero a size room =
    let hit : leb (align8 task_size) size ≡ true = ground arith in
    let split : leb (align8 task_size + header_size + 8) size ≡ true = ground arith in
    let at : a + header_size + align8 task_size ≡ a + task_block = omega arith in
    let left : size - align8 task_size - header_size ≡ size - task_block = omega arith in
    rw (hit, split, at, left)
laid-alloc_cells (suc n) a size room =
    ap (λ (cs : List Cell). cell a task_size false ∷ cs)
      (laid-alloc_cells n (a + task_block) (size - task_block) (omega arith))

-- The heap with a used block of `b` bytes before the tasks.
abbrev pub filled : (start b n size : ℕ) → List Cell
filled start b n size =
    cell start b false ∷ laid n (start + header_size + b) (size - b - header_size)

abbrev pub first_task : (start b : ℕ) → ℕ
first_task start b = start + header_size + b

pub filled-alloc_ptr :
    (start b n size : ℕ)
    → b + header_size + suc n * task_block + 8 ≤ size
    → alloc_ptr (align8 task_size) (filled start b n size) ≡ task_addr (first_task start b) n
filled-alloc_ptr start b n size room =
    unfold alloc_ptr in laid-alloc_ptr n (first_task start b) (size - b - header_size) (omega arith)

pub filled-alloc_cells :
    (start b n size : ℕ)
    → b + header_size + suc n * task_block + 8 ≤ size
    → alloc_cells (align8 task_size) (filled start b n size) ≡ filled start b (suc n) size
filled-alloc_cells start b n size room =
    unfold alloc_cells in
    ap (λ (cs : List Cell). cell start b false ∷ cs)
      (laid-alloc_cells n (first_task start b) (size - b - header_size) (omega arith))

-- The first block of an empty heap, which leaves room.
pub alloc_first :
    (start b size : ℕ)
    → b + header_size + 8 ≤ size
    → alloc_cells b (cell start size true ∷ []) ≡ filled start b 0 size
unfolding alloc_cells
alloc_first start b size room =
    let hit : leb b size ≡ true = ground arith in
    let split : leb (b + header_size + 8) size ≡ true = ground arith in rw (hit, split)
