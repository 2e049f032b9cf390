-- ===== src/Context/Witness.antt =====
-- drivers/scheduler.nasm and task_create at a concrete machine.
use neko_os_c.Prelude.{ℕ, ◌*◌, ◌≡◌, refl, inr, true, false, List, [], ◌∷◌, arith, ok}
use neko_os_c.Alloc.{block, align8}
use neko_os_c.Alloc.{put as put_header}
use neko_os_c.Alloc.Cells.{Cell, cell, IsHeap}
use neko_os_c.Alloc.Kmalloc.{alloc_ptr}
use neko_os_c.Sched.{Task, ready, put}
use neko_os_c.Context.{
  Machine, Symbols, Kernel, save, restore, context_switch, task_create, task_size,
}
use neko_os_c.Context.Resume.{Resumed, context_switch-Resumed}
use neko_os_c.Context.Start.{FirstCall, task_create-FirstCall}

abbrev task_at : ℕ → Task
task_at rsp = record { rsp = rsp; cr3 = 0; state = ready; id = 0; cpu_id = 0; next = 0 }

-- A stack at 1048, and a task 2 that sleeps at 2000.
abbrev machine : Machine
machine = record {
  regs = record { rbp = 1; rbx = 2; r12 = 3; r13 = 4; r14 = 5; r15 = 6 };
  rsp = 1048;
  rip = 0;
  words = λ a. a;
  tasks = λ p. task_at (p * 1000);
}

abbrev switched : Machine
switched = context_switch 1 2 machine

switched-rip : switched.rip ≡ 2048
unfolding context_switch save restore put
switched-rip = refl

context_switch-Resumed_example : Resumed machine (context_switch 2 1 switched)
context_switch-Resumed_example =
    context_switch-Resumed 1 2 2 1000 2008 machine switched refl (omega arith) (omega arith) refl
      (λ a low up. refl) (unfold context_switch save restore put in refl) (omega arith)
      (inr (omega arith))

abbrev kernel : Kernel
kernel = record {
  heap = record {
    start = 0x10000;
    total = 0x8000;
    headers = put_header (λ _. block 0 0 false) 0x10000 (block 0x7FE0 0 true);
    bytes = λ _. 0;
  };
  tasks = λ _. task_at 0;
  words = λ _. 0;
  next_task_id = 0;
}

abbrev cells : List Cell
cells = cell 0x10000 0x7FE0 true ∷ []

kernel-IsHeap : IsHeap kernel.heap cells
unfolding put_header
kernel-IsHeap = record {
  linked = (refl, tt);
  tiles = (refl, refl);
  first = refl;
  positive = omega arith;
  bounded = omega arith;
}

abbrev symbols : Symbols
symbols = record { task_trampoline = 0x200000; task_exit = 0x200100 }

task_create-FirstCall_example :
    (k' : Kernel) × (task_create symbols 0 0x200200 7 kernel
      ≡ ok (alloc_ptr (align8 task_size) cells, k'))
    × FirstCall symbols
        (alloc_ptr (align8 task_size) cells)
        k'
        (record { entry = 7; arg = 0x200200 })
unfolding alloc_ptr
task_create-FirstCall_example =
    task_create-FirstCall symbols 0 0x200200 7 kernel cells kernel-IsHeap (omega arith)
