-- ===== src/Context.antt =====
-- drivers/scheduler.nasm and task_create, task_trampoline of drivers/scheduler.c: the stacks of the
-- tasks and the switch from one to another.
pub mod Resume
pub mod Start
mod Witness
use neko_os_c.Prelude.{
  ℕ, ◌+◌, ◌-◌, ◌*◌, ◌%◌, ◌^◌, ◌&&◌, Bool, true, false, ◌==◌, ltb, leb, if◌then◌else◌, u32, u64, Run,
  ok, fault, ◌>>=◌,
}
use neko_os_c.Alloc.{Heap, kmalloc}
use neko_os_c.Mem.{Bytes, memset, poke}
use neko_os_c.Mem.Copy.{within}
use neko_os_c.Sched.{Task, Tasks, ready, put}

-- The registers that a called function must keep.
pub record Regs : Type 0 where
  pub rbp : ℕ
  pub rbx : ℕ
  pub r12 : ℕ
  pub r13 : ℕ
  pub r14 : ℕ
  pub r15 : ℕ

-- `words` holds the 64-bit word at each address that a stack uses.
pub record Machine : Type 0 where
  pub regs : Regs
  pub rsp : ℕ
  pub rip : ℕ
  pub words : ℕ → ℕ
  pub tasks : Tasks

abbrev pub below : ℕ → ℕ
below rsp = u64 (rsp + 2 ^ 64 - 8)

abbrev pub above : ℕ → ℕ
above rsp = u64 (rsp + 8)

abbrev pub push : ℕ → Machine → Machine
push v m = record m { rsp = below m.rsp; words = poke m.words (below m.rsp) v }

-- The six pushes of scheduler_context_switch.
unfoldable pub save : Machine → Machine
unfolding poke
save m =
    push m.regs.r15
      (push m.regs.r14 (push m.regs.r13 (push m.regs.r12 (push m.regs.rbx (push m.regs.rbp m)))))

-- Its six pops and its `ret`.
unfoldable pub restore : Machine → Machine
restore m =
    let a0 = m.rsp in
    let a1 = above a0 in
    let a2 = above a1 in
    let a3 = above a2 in
    let a4 = above a3 in
    let a5 = above a4 in
    let a6 = above a5 in
    record m {
      regs = record {
        r15 = m.words a0;
        r14 = m.words a1;
        r13 = m.words a2;
        r12 = m.words a3;
        rbx = m.words a4;
        rbp = m.words a5;
      };
      rip = m.words a6;
      rsp = above a6;
    }

-- The return address of the caller lies at `rsp`. The field `rsp` is the first of a task_t.
unfoldable pub context_switch : (old new : ℕ) → Machine → Machine
context_switch old new m =
    let s = save m in
    let kept = put s.tasks old (record (s.tasks old) { rsp = s.rsp }) in
    restore (record s { tasks = kept; rsp = (kept new).rsp })

-- Where the linker places the two functions.
pub record Symbols : Type 0 where
  pub task_trampoline : ℕ
  pub task_exit : ℕ

-- A call that a task makes: of the function at an address, with an argument.
pub record Call : Type 0 where
  pub entry : ℕ
  pub arg : ℕ

-- task_trampoline up to its call: `mov %r12, entry; mov %r13, arg; entry(arg)`.
unfoldable pub task_trampoline : Machine → Call
task_trampoline m = record { entry = m.regs.r12; arg = m.regs.r13 }

abbrev pub task_stack_size : ℕ
task_stack_size = 0x4000

-- sizeof(task_t) and the offset of its stack, on x86-64.
abbrev pub stack_offset : ℕ
stack_offset = 40

abbrev pub task_size : ℕ
task_size = 16424

pub record Kernel : Type 0 where
  pub heap : Heap
  pub tasks : Tasks
  pub words : ℕ → ℕ
  pub next_task_id : ℕ

-- The eight words that task_create pushes below `top`.
unfoldable pub first_frame : Symbols → (entry arg top : ℕ) → (ℕ → ℕ) → ℕ → ℕ
unfolding poke
first_frame sym entry arg top w0 =
    let w1 = poke w0 (top - 8) sym.task_exit in
    let w2 = poke w1 (top - 16) sym.task_trampoline in
    let w3 = poke w2 (top - 24) 0 in
    let w4 = poke w3 (top - 32) 0 in
    let w5 = poke w4 (top - 40) arg in
    let w6 = poke w5 (top - 48) entry in let w7 = poke w6 (top - 56) 0 in poke w7 (top - 64) 0

-- The part of task_create behind the allocation: the task is zeroed, filled in, and given a stack.
unfoldable pub init_task : Symbols → (cr3 entry arg task : ℕ) → Heap → Kernel → Kernel
unfolding memset put first_frame
init_task sym cr3 entry arg task heap k =
    let top = task + stack_offset + task_stack_size in
    record {
      heap = record heap { bytes = memset task 0 task_size heap.bytes };
      tasks = put k.tasks task (record {
        rsp = top - 64;
        cr3 = cr3;
        state = ready;
        id = k.next_task_id;
        cpu_id = 0xFF;
        next = 0;
      });
      words = first_frame sym entry arg top (λ a. if within task task_size a then 0 else k.words a);
      next_task_id = u32 (k.next_task_id + 1);
    }

-- The new task and the kernel with it. `cr3` is the page table register of the processor. Zeroing
-- through the null pointer of a failed kmalloc is a fault.
unfoldable pub task_create : Symbols → (cr3 entry arg : ℕ) → Kernel → Run (ℕ × Kernel)
task_create sym cr3 entry arg k = kmalloc task_size k.heap >>= λ (task, heap).
    if task == 0 then fault else ok (task, init_task sym cr3 entry arg task heap k)
