-- ===== src/Sched/Yield.antt =====
-- drivers/scheduler.c: scheduler_yield on every branch, over the list of queued tasks.
use neko_os_c.Prelude.{
  ℕ, ◌+◌, ◌^◌, ◌<◌, ◌≡◌, refl, ap, ◌∙◌, ◌≢◌, Bool, true, false, ◌&&◌, not, Option, none, some, ◌==◌,
  List, [], ◌∷◌, ◌++◌, arith, length, Bool-cases, inl, inr, ltb, if◌then◌else◌, u8, Run, ok,
}
use neko_os_c.Sched.{
  ready, running, Task, Tasks, put, Sched, Switch, max_cpus, busy, install, scheduler_enqueue,
  scheduler_dequeue, scheduler_yield, is_running,
}
use neko_os_c.Sched.Queue.{
  contains, IsQueue, Chain-next, put_self, put-other, body, scheduler_enqueue-append,
  scheduler_dequeue-front,
}

-- A yield on `cpu` that switches to `new` and leaves the tasks `ys` in the queue. Only the task that
-- runs next and the one that ran change, but for links; the latter is ready if it was running.
pub record Switched (cpu new : ℕ) (ys : List ℕ) (s s' : Sched) (sw : Switch) : Type 0 where
  pub from :
      sw.old ≡ (if (s.cpus cpu).current == 0 then (s.cpus cpu).idle else (s.cpus cpu).current)
  pub onto : sw.new ≡ new
  pub queue : IsQueue s' ys
  pub current : (s'.cpus cpu).current ≡ new
  pub idle : (s'.cpus cpu).idle ≡ (s.cpus cpu).idle
  pub others : (j : ℕ) → j ≢ cpu → s'.cpus j ≡ s.cpus j
  pub runs :
      body (s'.tasks new) ≡ record (s.tasks new) { state = running; cpu_id = u8 cpu; next = 0 }
  pub stopped :
      (s.cpus cpu).current ≢ new
      → body (s'.tasks (s.cpus cpu).current) ≡ (
          if busy s.tasks (s.cpus cpu).current
          then record (s.tasks (s.cpus cpu).current) { state = ready; next = 0 }
          else body (s.tasks (s.cpus cpu).current))
  pub kept : (a : ℕ) → a ≢ new → a ≢ (s.cpus cpu).current → body (s'.tasks a) ≡ body (s.tasks a)

-- What scheduler_yield does, by the queue and by whether the processor's task is running.
abbrev pub Yielded : (cpu : ℕ) → List ℕ → Bool → Sched → Run (Option Switch × Sched) → Type 0
Yielded cpu [] true s r =
    (s' : Sched) × (r ≡ ok (none, s'))
    × IsQueue s' []
    × ((a : ℕ) → body (s'.tasks a) ≡ body (s.tasks a))
    × (s'.cpus ≡ s.cpus)
Yielded cpu [] false s r =
    (s' : Sched) × (sw : Switch) × (r ≡ ok (some sw, s'))
    × Switched cpu (s.cpus cpu).idle [] s s' sw
Yielded cpu (x ∷ xs) true s r =
    (s' : Sched) × (sw : Switch) × (r ≡ ok (some sw, s'))
    × Switched cpu x (xs ++ (s.cpus cpu).current ∷ []) s s' sw
Yielded cpu (x ∷ xs) false s r =
    (s' : Sched) × (sw : Switch) × (r ≡ ok (some sw, s')) × Switched cpu x xs s s' sw

busy-body : (m n : Tasks) (a : ℕ) → body (n a) ≡ body (m a) → busy n a ≡ busy m a
busy-body m n a e = ap (λ (t : Task). not (a == 0) && is_running t.state) e

busy-nonnull : (m : Tasks) (a : ℕ) → busy m a ≡ true → a ≢ 0
busy-nonnull m a b e = ground arith

nonnull_test : (a : ℕ) → a ≢ 0 → (a == 0) ≡ false
nonnull_test a ne = ground arith

pub out_of_cons :
    (a x : ℕ) (xs : List ℕ) → contains (x ∷ xs) a ≡ false → (x ≢ a) × (contains xs a ≡ false)
out_of_cons a x xs out = ground arith

module _ (cpu : ℕ) (s : Sched) (here : cpu < max_cpus) where
  abbrev old : ℕ
  old = (s.cpus cpu).current

  abbrev idle : ℕ
  idle = (s.cpus cpu).idle

  on_cpu : ltb cpu max_cpus ≡ true
  on_cpu = ground arith

  abbrev started : Sched → ℕ → Task
  started t new = record (t.tasks new) { state = running; cpu_id = u8 cpu }

  -- The last part of a yield: from the state `t`, in which the task that ran is dealt with.
  install-Switched :
      (t : Sched) (new : ℕ) (ys : List ℕ)
      → IsQueue t ys
      → t.cpus ≡ s.cpus
      → ((a : ℕ) → a ≢ old → body (t.tasks a) ≡ body (s.tasks a))
      → (old ≢ new
          → body (t.tasks old) ≡ (
              if busy s.tasks old
              then record (s.tasks old) { state = ready; next = 0 }
              else body (s.tasks old)))
      → (body (t.tasks new) ≡ body (s.tasks new))
      → Switched cpu new ys s (install cpu old new t).1 (install cpu old new t).0
  unfolding install
  install-Switched t new ys is same kept stopped was = record {
    from = rw same;
    onto = refl;
    queue = record {
      head = is.head;
      tail = is.tail;
      count = is.count;
      unlocked = is.unlocked;
      chain =
          Chain-next t.tasks (put t.tasks new (started t new)) ys
            (λ a. (unfold put in ground arith)) is.chain;
    };
    current = ground arith;
    idle = rw same (ground arith);
    others = λ j ne. rw same (ground arith);
    runs =
        ap body (put_self t.tasks new (started t new))
        ∙ ap (λ (b : Task). record b { state = running; cpu_id = u8 cpu; next = 0 }) was;
    stopped = λ ne. ap body (put-other t.tasks new old (started t new) ne) ∙ stopped ne;
    kept = λ a ne ne'. ap body (put-other t.tasks new a (started t new) ne) ∙ kept a ne';
  }

  unchanged :
      (m : Tasks) (a : ℕ)
      → busy s.tasks a ≡ false
      → body (m a) ≡ body (s.tasks a)
      → body (m a) ≡ (
          if busy s.tasks a
          then record (s.tasks a) { state = ready; next = 0 }
          else body (s.tasks a))
  unchanged m a stopped same = rw stopped same

  yield-nothing :
      IsQueue s [] → idle ≢ 0 → Yielded cpu [] (busy s.tasks old) s (scheduler_yield cpu s)
  unfolding scheduler_yield
  yield-nothing is nonnull =
      let (s1, run, is1, same, cpus) = scheduler_dequeue-front [] s is (omega arith) in
      let b : busy s1.tasks old ≡ busy s.tasks old = busy-body s.tasks s1.tasks old (same old) in
      let real : (idle == 0) ≡ false = ground arith in
      elim (Bool-cases (busy s.tasks old)) [
        | inl going ↦ rw going (s1, rw (on_cpu, run, b, going), is1, same, cpus)
        | inr stopped ↦ rw stopped (
          (install cpu old idle s1).1,
          (install cpu old idle s1).0,
          rw (on_cpu, run, b, stopped, real),
          install-Switched s1 idle [] is1 cpus (λ a ne. same a)
              (λ ne. unchanged s1.tasks old stopped (same old)) (same idle),
        )
      ]

  yield_requeues :
      (x : ℕ) (s1 s2 : Sched)
      → scheduler_dequeue s ≡ ok (x, s1)
      → (x == 0) ≡ false
      → busy s1.tasks old ≡ true
      → scheduler_enqueue old s1 ≡ ok s2
      → scheduler_yield cpu s ≡ ok (some (install cpu old x s2).0, (install cpu old x s2).1)
  unfolding scheduler_yield
  yield_requeues x s1 s2 run real going run2 = rw (on_cpu, run, real, going, run2) (rw real)

  yield_drops :
      (x : ℕ) (s1 : Sched)
      → scheduler_dequeue s ≡ ok (x, s1)
      → (x == 0) ≡ false
      → busy s1.tasks old ≡ false
      → scheduler_yield cpu s ≡ ok (some (install cpu old x s1).0, (install cpu old x s1).1)
  unfolding scheduler_yield
  yield_drops x s1 run real stopped = rw (on_cpu, run, real, stopped) (rw real)

  yield-next :
      (x : ℕ) (xs : List ℕ)
      → IsQueue s (x ∷ xs)
      → contains (x ∷ xs) old ≡ false
      → length (x ∷ xs) + 1 < 2 ^ 32
      → Yielded cpu (x ∷ xs) (busy s.tasks old) s (scheduler_yield cpu s)
  unfolding scheduler_yield
  yield-next x xs is out room =
      let (s1, run, is1, same, cpus) = scheduler_dequeue-front (x ∷ xs) s is (omega arith) in
      let b : busy s1.tasks old ≡ busy s.tasks old = busy-body s.tasks s1.tasks old (same old) in
      let real : (x == 0) ≡ false = nonnull_test x is.chain.0 in
      let (other, out') = out_of_cons old x xs out in
      elim (Bool-cases (busy s.tasks old)) [
        | inl going ↦
            let (s2, run2, is2, back, (kept, cpus2)) =
              scheduler_enqueue-append old xs s1 is1 (busy-nonnull s.tasks old going) out'
                (omega arith) in
            rw going (
              (install cpu old x s2).1,
              (install cpu old x s2).0,
              yield_requeues x s1 s2 run real (b ∙ going) run2,
              install-Switched s2 x (xs ++ old ∷ []) is2 (cpus2 ∙ cpus) (λ a ne. kept a ne ∙ same a)
                  (λ ne.
                    rw going
                      (back ∙ ap (λ (t : Task). record t { state = ready; next = 0 }) (same old)))
                  (kept x other ∙ same x),
            )
        | inr stopped ↦ rw stopped (
          (install cpu old x s1).1,
          (install cpu old x s1).0,
          yield_drops x s1 run real (b ∙ stopped),
          install-Switched s1 x xs is1 cpus (λ a ne. same a)
              (λ ne. unchanged s1.tasks old stopped (same old)) (same x),
        )
      ]

-- scheduler_yield on every branch: with nothing queued a running task goes on, and any other gives
-- way to the idle task; with a task queued the front one runs, and the one that ran goes to the
-- back of the queue exactly if it was running. The lock is given back.
pub scheduler_yield-Yielded :
    (cpu : ℕ) (s : Sched) (xs : List ℕ)
    → cpu < max_cpus
    → IsQueue s xs
    → (s.cpus cpu).idle ≢ 0
    → contains xs (s.cpus cpu).current ≡ false
    → length xs + 1 < 2 ^ 32
    → Yielded cpu xs (busy s.tasks (s.cpus cpu).current) s (scheduler_yield cpu s)
scheduler_yield-Yielded cpu s [] here is spare out room = yield-nothing cpu s here is spare
scheduler_yield-Yielded cpu s (x ∷ xs) here is spare out room =
    yield-next cpu s here x xs is out room
