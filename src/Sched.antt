-- ===== src/Sched.antt =====
-- drivers/scheduler.c and include/scheduler.h: the run queue that the processors share, the switch
-- from task to task, and the loop of a worker.
pub mod Queue
pub mod Yield
pub mod Rotate
pub mod Idle
mod Witness
use neko_os_c.Prelude.{
  ℕ, zero, suc, ◌+◌, ◌-◌, ◌*◌, ◌%◌, ◌^◌, Bool, true, false, ◌&&◌, not, Option, none, some, ◌==◌,
  ltb, if◌then◌else◌, u8, u32, Run, ok, out_of_fuel, fault, ◌>>=◌,
}

pub data TaskState : Type 0 where
  ready running blocked dead : TaskState

abbrev pub is_running : TaskState → Bool
is_running running = true
is_running _ = false

-- task_t without its stack. A pointer to a task is an address, and 0 is the null pointer.
pub record Task : Type 0 where
  pub rsp : ℕ
  pub cr3 : ℕ
  pub state : TaskState
  pub id : ℕ
  pub cpu_id : ℕ
  pub next : ℕ

abbrev pub Tasks : Type 0
Tasks = ℕ → Task

unfoldable pub put : Tasks → ℕ → Task → Tasks
put m p t q = if q == p then t else m q

-- cpu_local_t, less its lock, which nothing takes.
pub record CpuLocal : Type 0 where
  pub current : ℕ
  pub idle : ℕ

-- run_queue_t.
pub record RunQueue : Type 0 where
  pub head : ℕ
  pub tail : ℕ
  pub locked : ℕ
  pub count : ℕ

abbrev pub max_cpus : ℕ
max_cpus = 16

pub record Sched : Type 0 where
  pub tasks : Tasks
  pub queue : RunQueue
  pub cpus : ℕ → CpuLocal

-- spinlock_acquire where no other processor runs: a lock that is held stays held, so the loop does
-- not end.
abbrev pub acquire : RunQueue → Run RunQueue
acquire q = if q.locked == 0 then ok (record q { locked = 1 }) else out_of_fuel

abbrev pub release : RunQueue → RunQueue
release q = record q { locked = 0 }

-- The critical section of scheduler_enqueue.
abbrev pub append : ℕ → Sched → Sched
append task s =
    let q = s.queue in
    if q.tail == 0
    then record s { queue = record q { head = task; tail = task; count = u32 (q.count + 1) } }
    else record s {
      tasks = put s.tasks q.tail (record (s.tasks q.tail) { next = task });
      queue = record q { tail = task; count = u32 (q.count + 1) };
    }

unfoldable pub scheduler_enqueue : ℕ → Sched → Run Sched
unfolding put
scheduler_enqueue task s =
    if task == 0
    then fault
    else (let t = record (s.tasks task) { state = ready; next = 0 } in
        acquire s.queue >>= λ q.
        let s' = append task (record s { tasks = put s.tasks task t; queue = q }) in
        ok (record s' { queue = release s'.queue }))

-- The task taken, or the null pointer.
unfoldable pub scheduler_dequeue : Sched → Run (ℕ × Sched)
unfolding put
scheduler_dequeue s = acquire s.queue >>= λ q.
    let task = q.head in
    let t = s.tasks task in
    if task == 0
    then ok (task, record s { queue = release q })
    else ok (
      task,
      record s {
        tasks = put s.tasks task (record t { next = 0 });
        queue = record q {
          head = t.next;
          tail = if t.next == 0 then 0 else q.tail;
          locked = 0;
          count = u32 (q.count + 2 ^ 32 - 1);
        };
      },
    )

abbrev pub put_cpu : (ℕ → CpuLocal) → ℕ → CpuLocal → ℕ → CpuLocal
put_cpu m i c j = if j == i then c else m j

-- `&cpu_locals[lapic_id()]`, where the processor's number is that of its local APIC.
abbrev pub cpu_local : ℕ → Sched → Run CpuLocal
cpu_local cpu s = if ltb cpu max_cpus then ok (s.cpus cpu) else fault

-- The two arguments of a call of scheduler_context_switch.
pub record Switch : Type 0 where
  pub old : ℕ
  pub new : ℕ

-- `old && old->state == TASK_RUNNING`
abbrev pub busy : Tasks → ℕ → Bool
busy m t = not (t == 0) && is_running (m t).state

-- `next` starts to run on `cpu`, in place of `old`.
unfoldable pub install : (cpu old next : ℕ) → Sched → Switch × Sched
unfolding put
install cpu old next s = (
  record { old = if old == 0 then (s.cpus cpu).idle else old; new = next },
  record s {
    tasks = put s.tasks next (record (s.tasks next) { state = running; cpu_id = u8 cpu });
    cpus = put_cpu s.cpus cpu (record (s.cpus cpu) { current = next });
  },
)

-- scheduler_yield on `cpu`, up to the call of scheduler_context_switch, whose arguments are
-- returned; `none` is the return without a switch.
unfoldable pub scheduler_yield : ℕ → Sched → Run (Option Switch × Sched)
unfolding scheduler_enqueue scheduler_dequeue install
scheduler_yield cpu s = cpu_local cpu s >>= λ c.
    let old = c.current in
    scheduler_dequeue s >>= λ (next, s1).
    if next == 0 && busy s1.tasks old
    then ok (none, s1)
    else (let chosen = if next == 0 then c.idle else next in
        (if busy s1.tasks old then scheduler_enqueue old s1 else ok s1) >>= λ s2.
        if chosen == 0 then fault else let (sw, s3) = install cpu old chosen s2 in ok (some sw, s3))

unfoldable pub scheduler_tick : ℕ → Sched → Run (Option Switch × Sched)
unfolding scheduler_yield
scheduler_tick = scheduler_yield

unfoldable pub task_exit : ℕ → Sched → Run (Option Switch × Sched)
unfolding scheduler_yield put
task_exit cpu s = cpu_local cpu s >>= λ c.
    if c.current == 0
    then fault
    else scheduler_yield cpu
        (record s { tasks = put s.tasks c.current (record (s.tasks c.current) { state = dead }) })

-- cpu_enter_worker up to its loop: the processor's own stack becomes that of its idle task.
unfoldable pub enter_worker : (cpu rsp : ℕ) → Sched → Run Sched
unfolding put
enter_worker cpu rsp s = cpu_local cpu s >>= λ c.
    if c.idle == 0
    then fault
    else ok (record s {
      tasks = put s.tasks c.idle (record (s.tasks c.idle) { rsp = rsp });
      cpus = put_cpu s.cpus cpu (record c { current = c.idle });
    })

-- One round of its loop: `none` is a pause.
unfoldable pub worker_round : ℕ → Sched → Run (Option Switch × Sched)
unfolding scheduler_dequeue put
worker_round cpu s = cpu_local cpu s >>= λ c. scheduler_dequeue s >>= λ (task, s1).
    if task == 0
    then ok (none, s1)
    else ok (
      some (record { old = c.idle; new = task }),
      record s1 {
        tasks = put s1.tasks task (record (s1.tasks task) { state = running; cpu_id = u8 cpu });
        cpus = put_cpu s1.cpus cpu (record c { current = task });
      },
    )
