-- ===== src/Sched/Witness.antt =====
-- drivers/scheduler.c at three tasks on processor 1: tests, and the theorems there.
use neko_os_c.Prelude.{ℕ, ◌≡◌, refl, [], ◌∷◌, arith, out_of_fuel}
use neko_os_c.Sched.{
  TaskState, ready, running, Task, put, Sched, busy, scheduler_yield, scheduler_tick,
}
use neko_os_c.Sched.Queue.{IsQueue}
use neko_os_c.Sched.Yield.{Yielded, scheduler_yield-Yielded}
use neko_os_c.Sched.Rotate.{Turn, Later, yields-Turn}

abbrev task : TaskState → ℕ → ℕ → Task
task st id next = record { rsp = 0; cr3 = 0; state = st; id = id; cpu_id = 0; next = next }

-- Task 100 runs on processor 1, whose idle task is 500; 200 and 300 wait.
abbrev sched : Sched
sched = record {
  tasks =
      put
        (put (put (put (λ _. task ready 0 0) 100 (task running 1 0)) 200 (task ready 2 300)) 300
          (task ready 3 0))
        500 (task ready 9 0);
  queue = record { head = 200; tail = 300; locked = 0; count = 2 };
  cpus = λ _. record { current = 100; idle = 500 };
}

-- The same with nothing queued, in the idle task.
abbrev idle : Sched
idle = record sched {
  queue = record { head = 0; tail = 0; locked = 0; count = 0 };
  cpus = λ _. record { current = 500; idle = 500 };
}

sched-IsQueue : IsQueue sched (200 ∷ 300 ∷ [])
unfolding put
sched-IsQueue = record {
  head = refl;
  tail = refl;
  count = refl;
  unlocked = refl;
  chain = (omega arith, refl, refl, (omega arith, refl, refl, tt));
}

idle-IsQueue : IsQueue idle []
idle-IsQueue = record { head = refl; tail = refl; count = refl; unlocked = refl; chain = tt }

sched-Turn : Turn 1 sched 100 (200 ∷ 300 ∷ [])
unfolding put
sched-Turn = record {
  queue = sched-IsQueue;
  current = refl;
  runs = refl;
  spare = omega arith;
  out = refl;
  room = omega arith;
}

-- With the lock of the run queue held by the code that it interrupts, the timer's tick spins.
tick_under_lock :
    scheduler_tick 1
      (record sched { queue = record { head = 200; tail = 300; locked = 1; count = 2 } })
    ≡ out_of_fuel
unfolding scheduler_tick
tick_under_lock = refl

scheduler_yield-Yielded_example :
    Yielded 1 (200 ∷ 300 ∷ []) (busy sched.tasks 100) sched (scheduler_yield 1 sched)
scheduler_yield-Yielded_example =
    scheduler_yield-Yielded 1 sched (200 ∷ 300 ∷ []) (omega arith) sched-IsQueue (omega arith) refl
      (omega arith)

yields-Turn_example : Later 1 2 sched 300 (100 ∷ 200 ∷ [])
yields-Turn_example = yields-Turn 1 sched 100 300 (200 ∷ []) [] (omega arith) sched-Turn
