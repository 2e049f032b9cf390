-- ===== src/Spinlock/Witness.antt =====
-- The theorem of include/spinlock.h at a concrete run.
use neko_os_c.Prelude.{refl}
use neko_os_c.Spinlock.{
  System, acquire_round, spinlock_acquire, calls, tries, Reach, starts, steps, spinlock_init,
}
use neko_os_c.Spinlock.Exclusion.{Exclusive, Reach-Exclusive}

abbrev taken_run : System
taken_run =
    acquire_round 2 (acquire_round 1 (spinlock_acquire 2 (spinlock_acquire 1 spinlock_init)))

-- Processors 1 and 2 call, and 1 is first.
taken-Reach : Reach taken_run
unfolding acquire_round spinlock_acquire
taken-Reach =
    steps _ _
      (steps _ _
        (steps _ _ (steps _ _ starts (calls 1 spinlock_init refl))
          (calls 2 (spinlock_acquire 1 spinlock_init) refl))
        (tries 1 (spinlock_acquire 2 (spinlock_acquire 1 spinlock_init)) refl))
      (tries 2 (acquire_round 1 (spinlock_acquire 2 (spinlock_acquire 1 spinlock_init))) refl)

Reach-Exclusive_example : Exclusive taken_run
Reach-Exclusive_example = Reach-Exclusive taken_run taken-Reach
