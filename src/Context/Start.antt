-- ===== src/Context/Start.antt =====
-- drivers/scheduler.c: what a task that task_create has made does first.
use neko_os_c.Prelude.{
  ℕ, ◌+◌, ◌-◌, ◌^◌, ◌≤◌, ◌<◌, ◌≡◌, ◌≢◌, ◌⊎◌, refl, ap, false, ◌∙◌, arith, ◌==◌, ok, List,
  if◌then◌else◌,
}
use neko_os_c.Alloc.{header_size, Heap, kmalloc, align8}
use neko_os_c.Alloc.Cells.{Cell, IsHeap, cell_at-within}
use neko_os_c.Alloc.Kmalloc.{alloc_cells, alloc_ptr, kmalloc-alloc_cells}
use neko_os_c.Alloc.Promise.{alloc_cells-Granted}
use neko_os_c.Mem.{poke}
use neko_os_c.Mem.Copy.{within}
use neko_os_c.Context.{
  Regs, Machine, Symbols, Call, Kernel, context_switch, task_trampoline, first_frame, init_task,
  task_create, stack_offset, task_stack_size, task_size,
}
use neko_os_c.Context.Resume.{framed-other, switched-words, Frame, Frame-same, switch-Frame}

-- The registers with which the first switch to a task enters the trampoline.
abbrev first_regs : ℕ → ℕ → Regs
first_regs entry arg = record { rbp = 0; rbx = 0; r12 = arg; r13 = entry; r14 = 0; r15 = 0 }

module _ (symbols : Symbols) (entry arg b : ℕ) (w : ℕ → ℕ) where
  abbrev made : ℕ → ℕ
  made = first_frame symbols entry arg (b + 64) w

  first_frame-eq :
      made
      ≡ poke
          (poke
            (poke
              (poke
                (poke
                  (poke
                    (poke (poke w (b + 56) symbols.task_exit) (b + 48) symbols.task_trampoline)
                    (b + 40)
                    0)
                  (b + 32)
                  0)
                (b + 24)
                arg)
              (b + 16)
              entry)
            (b + 8)
            0)
          b
          0
  unfolding first_frame
  first_frame-eq =
      let e1 : b + 64 - 8 ≡ b + 56 = omega arith in
      let e2 : b + 64 - 16 ≡ b + 48 = omega arith in
      let e3 : b + 64 - 24 ≡ b + 40 = omega arith in
      let e4 : b + 64 - 32 ≡ b + 32 = omega arith in
      let e5 : b + 64 - 40 ≡ b + 24 = omega arith in
      let e6 : b + 64 - 48 ≡ b + 16 = omega arith in
      let e7 : b + 64 - 56 ≡ b + 8 = omega arith in
      let e8 : b + 64 - 64 ≡ b = omega arith in rw (e1, e2, e3, e4, e5, e6, e7, e8)

  made-Frame : Frame b (first_regs entry arg) symbols.task_trampoline made
  made-Frame = rw first_frame-eq record {
    r15 = unfold poke in ground arith;
    r14 = unfold poke in ground arith;
    r13 = unfold poke in ground arith;
    r12 = unfold poke in ground arith;
    rbx = unfold poke in ground arith;
    rbp = unfold poke in ground arith;
    back = unfold poke in ground arith;
  }

  first_frame-exit : made (b + 56) ≡ symbols.task_exit
  first_frame-exit = rw first_frame-eq (unfold poke in ground arith)

-- What the first switch to a task leads to: the trampoline is entered, with the address of task_exit
-- on top of the stack, and makes this call.
abbrev pub Starts : Symbols → Machine → Call → Type 0
Starts symbols m call =
    (m.rip ≡ symbols.task_trampoline)
    × (m.words m.rsp ≡ symbols.task_exit)
    × (task_trampoline m ≡ call)

-- `n` has what task_create wrote for the task: its stack pointer and its first frame.
pub record Untouched (task : ℕ) (k : Kernel) (n : Machine) : Type 0 where
  pub rsp : (n.tasks task).rsp ≡ (k.tasks task).rsp
  pub words : (a : ℕ) → (k.tasks task).rsp ≤ a → a < (k.tasks task).rsp + 64 → n.words a ≡ k.words a

-- A switch to a new task from another one that runs on another stack.
pub record Elsewhere (other task c : ℕ) (k : Kernel) (n : Machine) : Type 0 where
  pub distinct : other ≢ task
  pub base : n.rsp ≡ c + 48
  pub room : c + 56 ≤ 2 ^ 64
  pub apart : (c + 48 ≤ (k.tasks task).rsp) ⊎ ((k.tasks task).rsp + 64 ≤ c)

apart_from_exit : (b c : ℕ) → (c + 48 ≤ b) ⊎ (b + 64 ≤ c) → (b + 56 < c) ⊎ (c + 48 ≤ b + 56)
apart_from_exit b c apart = ground arith

apart_from_frame : (b c : ℕ) → (c + 48 ≤ b) ⊎ (b + 64 ≤ c) → (c + 48 ≤ b) ⊎ (b + 56 ≤ c)
apart_from_frame b c apart = ground arith

module _ (symbols : Symbols) (entry arg b : ℕ) (w : ℕ → ℕ) (k : Kernel) (task other c : ℕ)
    (n : Machine) (at : (k.tasks task).rsp ≡ b)
    (stack : k.words ≡ first_frame symbols entry arg (b + 64) w) (room : b + 64 ≤ 2 ^ 64)
    (same : Untouched task k n) (away : Elsewhere other task c k n) where
  abbrev entered : Machine
  entered = context_switch other task n

  seen : (a : ℕ) → b ≤ a → a < b + 64 → n.words a ≡ first_frame symbols entry arg (b + 64) w a
  seen a low up = same.words a (rw at low) (rw at up) ∙ ap (λ (f : ℕ → ℕ). f a) stack

  apart : (c + 48 ≤ b) ⊎ (b + 64 ≤ c)
  apart = rw at at away.apart

  entered-Starts : Starts symbols entered (record { entry = arg; arg = entry })
  unfolding task_trampoline
  entered-Starts =
      let (regs, rip, rsp) =
        switch-Frame other task n b c (first_regs entry arg) symbols.task_trampoline away.distinct
          away.base away.room (omega arith) (apart_from_frame b c apart) (same.rsp ∙ at)
          (Frame-same b _ _ (first_frame symbols entry arg (b + 64) w) n.words
            (λ a low up. seen a low (omega arith)) (made-Frame symbols entry arg b w)) in
      (
        rip,
        rw rsp (
            switched-words other task n c away.base away.room (b + 56)
            ∙ framed-other c n.regs n.words (b + 56) (apart_from_exit b c apart)
            ∙ seen (b + 56) (omega arith) (omega arith)
            ∙ first_frame-exit symbols entry arg b w),
        rw regs,
      )

pub task_create-ok :
    (symbols : Symbols) (cr3 entry arg task : ℕ) (k : Kernel) (heap : Heap)
    → kmalloc task_size k.heap ≡ ok (task, heap)
    → task ≢ 0
    → task_create symbols cr3 entry arg k ≡ ok (task, init_task symbols cr3 entry arg task heap k)
unfolding task_create
task_create-ok symbols cr3 entry arg task k heap run ne =
    let real : (task == 0) ≡ false = ground arith in rw (run, real)

-- The new task's stack pointer, eight words below the top of its stack.
abbrev bottom : ℕ → ℕ
bottom task = task + stack_offset + task_stack_size - 64

init_task-rsp :
    (symbols : Symbols) (cr3 entry arg task : ℕ) (heap : Heap) (k : Kernel)
    → ((init_task symbols cr3 entry arg task heap k).tasks task).rsp ≡ bottom task
unfolding init_task
init_task-rsp symbols cr3 entry arg task heap k = ground arith

init_task-words :
    (symbols : Symbols) (cr3 entry arg task : ℕ) (heap : Heap) (k : Kernel)
    → (init_task symbols cr3 entry arg task heap k).words
      ≡ first_frame symbols entry arg
          (bottom task + 64)
          (λ a. if within task task_size a then 0 else k.words a)
unfolding init_task
init_task-words symbols cr3 entry arg task heap k =
    let e : bottom task + 64 ≡ task + stack_offset + task_stack_size = omega arith in rw e

-- Whatever a switch to the new task makes it do, by the switch's state.
abbrev pub FirstCall : Symbols → ℕ → Kernel → Call → Type 0
FirstCall symbols task k call =
    (other c : ℕ) (n : Machine)
    → Untouched task k n
    → Elsewhere other task c k n
    → Starts symbols (context_switch other task n) call

-- task_create finds room in a heap with a large enough free block. A first switch to the new task
-- from another stack enters task_trampoline, with the address of task_exit on the stack. The
-- trampoline then calls the address `arg` with the argument `entry`: the two have changed places,
-- since task_create pushes r12 and r13 in the order opposite to that in which they are popped.
pub task_create-FirstCall :
    (symbols : Symbols) (cr3 entry arg : ℕ) (k : Kernel) (cs : List Cell)
    → IsHeap k.heap cs
    → alloc_ptr (align8 task_size) cs ≢ 0
    → (k' : Kernel) × (task_create symbols cr3 entry arg k
        ≡ ok (alloc_ptr (align8 task_size) cs, k'))
      × FirstCall symbols (alloc_ptr (align8 task_size) cs) k' (record { entry = arg; arg = entry })
task_create-FirstCall symbols cr3 entry arg k cs is ne =
    let task : ℕ = alloc_ptr (align8 task_size) cs in
    let (heap, run, is', _) = kmalloc-alloc_cells task_size k.heap cs is (omega arith) in
    let k' : Kernel = init_task symbols cr3 entry arg task heap k in
    let ((c, at, _, size, _, _, _), _) =
      alloc_cells-Granted (align8 task_size) k.heap.start (k.heap.start + k.heap.total) task cs
        is.tiles refl ne in
    let (_, inside) =
      cell_at-within (task - header_size) heap.start (heap.start + heap.total)
        (alloc_cells (align8 task_size) cs) c is'.tiles at in
    let bounded = is'.bounded in
    let room : bottom task + 64 ≤ 2 ^ 64 = omega arith in
    (
      k',
      task_create-ok symbols cr3 entry arg task k heap run ne,
      λ other c n same away.
          entered-Starts symbols entry arg (bottom task)
            (λ a. if within task task_size a then 0 else k.words a) k' task other c n
            (init_task-rsp symbols cr3 entry arg task heap k)
            (init_task-words symbols cr3 entry arg task heap k) room same away,
    )
