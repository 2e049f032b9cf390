-- ===== src/Spinlock.antt =====
-- include/spinlock.h: the lock that processors take in turns, each of its accesses being atomic.
pub mod Exclusion
mod Witness
use neko_os_c.Prelude.{ℕ, zero, suc, ◌==◌, ◌≡◌, true, false, Bool, if◌then◌else◌}

-- spinlock_t, and where a processor is: outside, in the loop of spinlock_acquire, or behind it.
pub data Place : Type 0 where
  outside spinning inside : Place

pub record System : Type 0 where
  pub locked : ℕ
  pub place : ℕ → Place

abbrev pub move : ℕ → Place → (ℕ → Place) → ℕ → Place
move c v places d = if d == c then v else places d

-- A round of the loop: __sync_lock_test_and_set stores 1, and the loop ends when it found 0.
unfoldable pub acquire_round : (c : ℕ) → System → System
acquire_round c s = record {
  locked = 1;
  place = move c (if s.locked == 0 then inside else spinning) s.place;
}

-- __sync_lock_release stores 0.
unfoldable pub spinlock_release : (c : ℕ) → System → System
spinlock_release c s = record { locked = 0; place = move c outside s.place }

unfoldable pub spinlock_acquire : (c : ℕ) → System → System
spinlock_acquire c s = record s { place = move c spinning s.place }

-- The processors take steps in any order; the one that is inside releases the lock.
pub data Step : System → System → Type 0 where
  calls : (c : ℕ) (s : System) → s.place c ≡ outside → Step s (spinlock_acquire c s)
  tries : (c : ℕ) (s : System) → s.place c ≡ spinning → Step s (acquire_round c s)
  leaves : (c : ℕ) (s : System) → s.place c ≡ inside → Step s (spinlock_release c s)

-- SPINLOCK_INIT, with every processor outside.
abbrev pub spinlock_init : System
spinlock_init = record { locked = 0; place = λ c. outside }

pub data Reach : System → Type 0 where
  starts : Reach spinlock_init
  steps : (s t : System) → Reach s → Step s t → Reach t
