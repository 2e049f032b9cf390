-- ===== src/Sched/Rotate.antt =====
-- drivers/scheduler.c: repeated yields on one processor serve the tasks in turn.
use neko_os_c.Prelude.{
  ℕ, zero, suc, ◌+◌, ◌^◌, ◌<◌, ◌≡◌, refl, sym, ap, ◌∙◌, ◌≢◌, true, false, ◌&&◌, not, Option, none,
  some, ◌==◌, List, [], ◌∷◌, ◌++◌, arith, length, length-append, u8, Run, ok, ◌>>=◌,
}
use mathlib.Core.List.{append_assoc}
use neko_os_c.Sched.{
  running, Task, Tasks, Sched, Switch, max_cpus, busy, scheduler_yield, is_running,
}
use neko_os_c.Sched.Queue.{contains, contains-append, IsQueue, body}
use neko_os_c.Sched.Yield.{Yielded, scheduler_yield-Yielded, out_of_cons}

-- `n` calls of scheduler_yield on one processor, each by the task that the one before it started.
unfoldable pub yields : ℕ → ℕ → Sched → Run Sched
yields zero cpu s = ok s
yields (suc n) cpu s = scheduler_yield cpu s >>= λ (sw, s'). yields n cpu s'

-- The running task of the processor, and the tasks in the queue.
pub record Turn (cpu : ℕ) (s : Sched) (t : ℕ) (xs : List ℕ) : Type 0 where
  pub queue : IsQueue s xs
  pub current : (s.cpus cpu).current ≡ t
  pub runs : busy s.tasks t ≡ true
  pub spare : (s.cpus cpu).idle ≢ 0
  pub out : contains xs t ≡ false
  pub room : length xs + 1 < 2 ^ 32

pub busy-running :
    (m : Tasks) (t : ℕ) (b : Task)
    → t ≢ 0
    → body (m t) ≡ body b
    → is_running b.state ≡ true
    → busy m t ≡ true
busy-running m t b ne e runs = ground (arith, ap (λ (k : Task). is_running k.state) e)

abbrev pub After : (cpu : ℕ) → Sched → ℕ → List ℕ → Type 0
After cpu s t xs =
    (sw : Option Switch) × (s' : Sched) × (scheduler_yield cpu s ≡ ok (sw, s')) × Turn cpu s' t xs

module _ (cpu : ℕ) (s : Sched) (t : ℕ) (here : cpu < max_cpus) where
  outcome : (xs : List ℕ) → Turn cpu s t xs → Yielded cpu xs true s (scheduler_yield cpu s)
  outcome xs turn =
      let going : busy s.tasks (s.cpus cpu).current ≡ true = rw turn.current turn.runs in
      rw going at (
        scheduler_yield-Yielded cpu s xs here turn.queue turn.spare (rw turn.current turn.out)
          turn.room)

  -- One yield makes the front task run and puts the one that ran behind the others.
  pub yield-Turn : (x : ℕ) (xs : List ℕ) → Turn cpu s t (x ∷ xs) → After cpu s x (xs ++ t ∷ [])
  yield-Turn x xs turn =
      let (s', sw, run, done) = outcome (x ∷ xs) turn in
      (
        some sw,
        s',
        run,
        record {
          queue = rw turn.current at done.queue;
          current = done.current;
          runs =
              busy-running s'.tasks x
                (record (s.tasks x) { state = running; cpu_id = u8 cpu; next = 0 })
                turn.queue.chain.0 done.runs refl;
          spare = rw done.idle turn.spare;
          out =
              contains-append x t xs turn.queue.chain.2
                λ e. (out_of_cons t x xs turn.out).0 (sym e);
          room = omega (arith, length-append xs (t ∷ []));
        },
      )

  -- With nobody waiting the running task goes on.
  yield_alone : Turn cpu s t [] → After cpu s t []
  yield_alone turn =
      let (s', run, is, same, cpus) = outcome [] turn in
      (
        none,
        s',
        run,
        record {
          queue = is;
          current = rw cpus turn.current;
          runs = ap (λ (k : Task). not (t == 0) && is_running k.state) (same t) ∙ turn.runs;
          spare = rw cpus turn.spare;
          out = refl;
          room = turn.room;
        },
      )

-- The task `t` runs and the tasks `xs` wait, after `n` yields.
abbrev pub Later : (cpu n : ℕ) → Sched → ℕ → List ℕ → Type 0
Later cpu n s t xs = (s' : Sched) × (yields n cpu s ≡ ok s') × Turn cpu s' t xs

-- No task starves: one that waits behind the tasks `ys` runs after one yield more than those are,
-- behind it then wait the tasks `zs` that waited there, the task that ran first, and `ys`, in order.
pub yields-Turn :
    (cpu : ℕ) (s : Sched) (c t : ℕ) (ys zs : List ℕ)
    → cpu < max_cpus
    → Turn cpu s c (ys ++ t ∷ zs)
    → Later cpu (suc (length ys)) s t (zs ++ c ∷ ys)
unfolding yields
yields-Turn cpu s c t [] zs here turn =
    let (sw, s', run, turn') = yield-Turn cpu s c here t zs turn in (s', rw run, turn')
yields-Turn cpu s c t (y ∷ ys) zs here turn =
    let (sw, s1, run, turn1) = yield-Turn cpu s c here y (ys ++ t ∷ zs) turn in
    let turn1' : Turn cpu s1 y (ys ++ t ∷ (zs ++ c ∷ [])) =
      rw (append_assoc ys (t ∷ zs) (c ∷ [])) at turn1 in
    let (s', run', turn') = yields-Turn cpu s1 y t ys (zs ++ c ∷ []) here turn1' in
    (s', rw run run', rw (append_assoc zs (c ∷ []) (y ∷ ys)) at turn')

-- A processor with nothing queued keeps its running task through any number of yields.
pub yields_alone :
    (cpu n : ℕ) (s : Sched) (t : ℕ) → cpu < max_cpus → Turn cpu s t [] → Later cpu n s t []
unfolding yields
yields_alone cpu zero s t here turn = (s, refl, turn)
yields_alone cpu (suc n) s t here turn =
    let (sw, s1, run, turn1) = yield_alone cpu s t here turn in
    let (s', run', turn') = yields_alone cpu n s1 t here turn1 in (s', rw run run', turn')
