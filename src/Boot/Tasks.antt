-- ===== src/Boot/Tasks.antt =====
-- kernel/main.c and drivers/scheduler.c: what the first tasks are and where.
use neko_os_c.Prelude.{
  ℕ, suc, ◌+◌, ◌-◌, ◌*◌, ◌^◌, ◌≤◌, ◌<◌, ◌≡◌, ◌⊎◌, inl, inr, refl, ap, ◌∙◌, arith, ok, u32,
}
use neko_os_c.Alloc.{header_size, Heap}
use neko_os_c.Alloc.Cells.{IsHeap}
use neko_os_c.Alloc.Kmalloc.{kmalloc-alloc_cells}
use neko_os_c.Boot.Laid.{
  task_block, task_addr, filled, first_task, filled-alloc_ptr, filled-alloc_cells,
}
use neko_os_c.Context.{
  Symbols, Kernel, task_create, init_task, stack_offset, task_stack_size, task_size,
}
use neko_os_c.Context.Start.{task_create-ok}
use neko_os_c.Sched.{Task, ready, put}
use neko_os_c.Sched.Queue.{put_self, put-other, body}

-- A task that task_create has made, with the number `i`.
abbrev pub new_task : (cr3 task i : ℕ) → Task
new_task cr3 task i = record {
  rsp = task + stack_offset + task_stack_size - 64;
  cr3 = cr3;
  state = ready;
  id = i;
  cpu_id = 0xFF;
  next = 0;
}

-- `n` tasks stand in the heap behind a block of `b` bytes.
pub record Populated (start b size cr3 n : ℕ) (k : Kernel) : Type 0 where
  pub heap : IsHeap k.heap (filled start b n size)
  pub next_id : k.next_task_id ≡ n
  pub made :
      (i : ℕ)
      → i < n
      → body (k.tasks (task_addr (first_task start b) i))
        ≡ new_task cr3 (task_addr (first_task start b) i) i

abbrev pub Room : (b size n : ℕ) → Type 0
Room b size n = (b + header_size + n * task_block + 8 ≤ size) × (n < 2 ^ 32)

split_last : (i n : ℕ) → i < suc n → (i < n) ⊎ (i ≡ n)
split_last i n low = ground arith

module _ (start b size cr3 n : ℕ) (symbols : Symbols) (entry arg : ℕ) (k : Kernel) where
  abbrev task : ℕ
  task = task_addr (first_task start b) n

  abbrev with_task : Heap → Kernel
  with_task heap = init_task symbols cr3 entry arg task heap k

  abbrev raw_task : Task
  raw_task = new_task cr3 task k.next_task_id

  with_task-tasks : (heap : Heap) → (with_task heap).tasks ≡ put k.tasks task raw_task
  unfolding init_task
  with_task-tasks heap = refl

  with_task-id : (heap : Heap) → (with_task heap).next_task_id ≡ u32 (k.next_task_id + 1)
  unfolding init_task
  with_task-id heap = refl

  with_task-IsHeap :
      (heap : Heap)
      → IsHeap heap (filled start b (suc n) size)
      → IsHeap (with_task heap).heap (filled start b (suc n) size)
  unfolding init_task
  with_task-IsHeap heap is = record {
    linked = is.linked;
    tiles = is.tiles;
    first = is.first;
    positive = is.positive;
    bounded = is.bounded;
  }

  made_after :
      Populated start b size cr3 n k
      → (i : ℕ) → i < suc n
      → body (put k.tasks task raw_task (task_addr (first_task start b) i))
        ≡ new_task cr3 (task_addr (first_task start b) i) i
  made_after pop i low = elim (split_last i n low) [
    | inl before ↦
        ap body (
          put-other k.tasks task (task_addr (first_task start b) i) raw_task
            (λ e. (omega (arith, e, before))))
        ∙ pop.made i before
    | inr last ↦ rw last (ap body (put_self k.tasks task raw_task) ∙ rw pop.next_id refl)
  ]

  -- One more task_create takes the next place in the heap.
  pub create-Populated :
      Populated start b size cr3 n k
      → Room b size (suc n)
      → (k' : Kernel) × (task_create symbols cr3 entry arg k ≡ ok (task, k'))
        × Populated start b size cr3 (suc n) k'
        × (k'.tasks ≡ put k.tasks task raw_task)
  create-Populated pop room =
      let (heap, run, is, _) =
        kmalloc-alloc_cells task_size k.heap (filled start b n size) pop.heap (omega arith) in
      let at = filled-alloc_ptr start b n size room.0 in
      let cells = filled-alloc_cells start b n size room.0 in
      let tasks = with_task-tasks heap in
      (
        with_task heap,
        task_create-ok symbols cr3 entry arg task k heap (rw at at run) (omega arith),
        record {
          heap = with_task-IsHeap heap (rw cells at is);
          next_id =
              with_task-id heap ∙ (let e = pop.next_id in let r = room.1 in omega (arith, e, r));
          made = rw tasks (made_after pop);
        },
        tasks,
      )
