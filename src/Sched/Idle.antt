-- ===== src/Sched/Idle.antt =====
-- drivers/scheduler.c: the idle task of a processor enters the run queue.
use neko_os_c.Prelude.{
  some, Option, ℕ, ◌<◌, ◌≡◌, refl, sym, ap, ◌∙◌, ◌≢◌, false, [], ◌∷◌, arith, u8, Run, ok, ◌>>=◌,
}
use neko_os_c.Sched.{
  Switch, running, Sched, CpuLocal, max_cpus, busy, scheduler_yield, scheduler_enqueue,
}
use neko_os_c.Sched.Queue.{contains, IsQueue, scheduler_enqueue-append}
use neko_os_c.Sched.Rotate.{Turn, busy-running, yield-Turn}
use neko_os_c.Sched.Yield.{scheduler_yield-Yielded}

differ : (a b : ℕ) → a ≢ b → contains (a ∷ []) b ≡ false
differ a b ne = ground arith

-- A processor whose task is not running yields with nothing queued; then a task arrives and the
-- processor yields again.
unfoldable pub yield_arrive_yield : (cpu task : ℕ) → Sched → Run Sched
yield_arrive_yield cpu task s = scheduler_yield cpu s >>= λ (_, s1).
    scheduler_enqueue task s1 >>= λ s2. scheduler_yield cpu s2 >>= λ (_, s3). ok s3

yield_arrive_yield-ok :
    (cpu task : ℕ) (s s1 s2 s3 : Sched) (sw1 sw3 : Option Switch)
    → scheduler_yield cpu s ≡ ok (sw1, s1)
    → scheduler_enqueue task s1 ≡ ok s2
    → scheduler_yield cpu s2 ≡ ok (sw3, s3)
    → yield_arrive_yield cpu task s ≡ ok s3
unfolding yield_arrive_yield
yield_arrive_yield-ok cpu task s s1 s2 s3 sw1 sw3 run1 run2 run3 = rw (run1, run2, run3)

-- The first yield runs the idle task as a running task, so the second puts it into the run queue
-- that all processors share, where any of them may take it.
pub yield-queues-idle :
    (cpu task : ℕ) (s : Sched)
    → cpu < max_cpus
    → IsQueue s []
    → (s.cpus cpu).idle ≢ 0
    → busy s.tasks (s.cpus cpu).current ≡ false
    → task ≢ 0
    → task ≢ (s.cpus cpu).idle
    → (s' : Sched) × (yield_arrive_yield cpu task s ≡ ok s')
      × IsQueue s' ((s.cpus cpu).idle ∷ [])
      × ((s'.cpus cpu).current ≡ task)
yield-queues-idle cpu task s here is spare stopped real other =
    let idle : ℕ = (s.cpus cpu).idle in
    let (s1, sw1, run1, done1) =
      rw stopped at (scheduler_yield-Yielded cpu s [] here is spare refl (omega arith)) in
    let (s2, run2, is2, _, (kept, cpus2)) =
      scheduler_enqueue-append task [] s1 done1.queue real refl (omega arith) in
    let turn : Turn cpu s2 idle (task ∷ []) = record {
      queue = is2;
      current = ap (λ (m : ℕ → CpuLocal). (m cpu).current) cpus2 ∙ done1.current;
      runs =
          busy-running s2.tasks idle
            (record (s.tasks idle) { state = running; cpu_id = u8 cpu; next = 0 }) spare
            (kept idle (λ e. other (sym e)) ∙ done1.runs) refl;
      spare = rw (ap (λ (m : ℕ → CpuLocal). (m cpu).idle) cpus2 ∙ done1.idle) spare;
      out = differ task idle other;
      room = omega arith;
    } in
    let (sw3, s3, run3, turn3) = yield-Turn cpu s2 idle here task [] turn in
    (
      s3,
      yield_arrive_yield-ok cpu task s s1 s2 s3 (some sw1) sw3 run1 run2 run3,
      turn3.queue,
      turn3.current,
    )
