-- ===== src/Boot.antt =====
-- kernel/main.c and scheduler_init of drivers/scheduler.c: the tasks that the first processor creates
-- before it becomes a worker.
pub mod Laid
pub mod Tasks
pub mod Loops
pub mod Start
mod Witness
use neko_os_c.Prelude.{ℕ, zero, suc, Run, ok, panic, ◌>>=◌, ◌==◌, if◌then◌else◌}
use neko_os_c.Alloc.{kalloc_init}
use neko_os_c.Console.{Console, console_init}
use neko_os_c.Context.{Symbols, Kernel, task_create}
use neko_os_c.Sched.{Sched, RunQueue, CpuLocal, max_cpus, put_cpu, scheduler_enqueue}

-- The tasks with their heap, and the run queue and the processors.
pub record System : Type 0 where
  pub kernel : Kernel
  pub queue : RunQueue
  pub cpus : ℕ → CpuLocal

abbrev pub sched_of : System → Sched
sched_of s = record { tasks = s.kernel.tasks; queue = s.queue; cpus = s.cpus }

-- The page tables of the processor, and where the linker places idle_task and test_task.
pub record Program : Type 0 where
  pub symbols : Symbols
  pub cr3 : ℕ
  pub idle_task : ℕ
  pub test_task : ℕ

-- The loop of scheduler_init: `n` more rounds from the processor `i` on.
unfoldable pub create_idles : (n i : ℕ) → Program → System → Run System
create_idles zero i program s = ok s
create_idles (suc n) i program s =
    task_create program.symbols program.cr3 program.idle_task 0 s.kernel >>= λ (task, k).
    create_idles n (suc i) program
      (record s { kernel = k; cpus = put_cpu s.cpus i (record { current = 0; idle = task }) })

unfoldable pub scheduler_init : Program → System → Run System
scheduler_init program s =
    create_idles max_cpus 0 program (record s { cpus = λ _. record { current = 0; idle = 0 } })

unfoldable pub enqueue_task : ℕ → System → Run System
enqueue_task task s = scheduler_enqueue task (sched_of s) >>= λ q.
    ok (record { kernel = record s.kernel { tasks = q.tasks }; queue = q.queue; cpus = q.cpus })

-- The loop of kernel_main: `n` more rounds from the task `i` on.
unfoldable pub create_tests : (n i : ℕ) → Program → System → Run System
unfolding enqueue_task
create_tests zero i program s = ok s
create_tests (suc n) i program s =
    task_create program.symbols program.cr3 program.test_task i s.kernel >>= λ (task, k).
    enqueue_task task (record s { kernel = k }) >>= create_tests n (suc i) program

-- What the loader passes to kernel_main.
abbrev pub loader_magic : ℕ
loader_magic = 0x36D76289

-- What kernel_main does to the heap and the tasks, with one processor: kalloc_init, the test of the
-- magic number, console_init, scheduler_init and its own loop. Its other calls touch neither.
unfoldable pub start_tasks :
    Program → (mb2_magic heap_start heap_size : ℕ) → Console → System → Run (Console × System)
start_tasks program mb2_magic heap_start heap_size console s =
    kalloc_init heap_start heap_size s.kernel.heap >>= λ heap.
    if mb2_magic == loader_magic
    then (console_init console heap >>= λ (shown, heap').
        scheduler_init program (record s { kernel = record s.kernel { heap = heap' } }) >>= λ idle.
        create_tests 8 0 program idle >>= λ s'. ok (shown, s'))
    else panic
