-- ===== src/Smp/Barrier.antt =====
-- ap_main and the end of smp_init of drivers/smp.c: no processor goes on before all of them are there.
use neko_os_c.Prelude.{
  ℕ, zero, suc, ◌+◌, ◌-◌, ◌^◌, ◌≤◌, ◌<◌, ◌==◌, ◌≡◌, ◌≢◌, refl, sym, ap, ◌∙◌, ◌⊎◌, inl, inr,
  if◌then◌else◌, u32, arith,
}

-- A processor sleeps, runs ap_main up to its count, waits behind it, or has gone on to its work.
pub data Phase : Type 0 where
  asleep starting waiting working : Phase

-- The static variables, and whether smp_init has come to its end.
pub record Smp : Type 0 where
  pub aps_started : ℕ
  pub aps_expected : ℕ
  pub phase : ℕ → Phase
  pub all_online : ℕ

abbrev pub enter : ℕ → Phase → (ℕ → Phase) → ℕ → Phase
enter c v phases d = if d == c then v else phases d

-- __sync_fetch_and_add(&aps_started, 1)
unfoldable pub check_in : (c : ℕ) → Smp → Smp
check_in c s = record s { aps_started = u32 (s.aps_started + 1); phase = enter c waiting s.phase }

unfoldable pub go_on : (c : ℕ) → Smp → Smp
go_on c s = record s { phase = enter c working s.phase }

unfoldable pub wake : (c : ℕ) → Smp → Smp
wake c s = record s { phase = enter c starting s.phase }

unfoldable pub finish_smp : Smp → Smp
finish_smp s = record s { all_online = 1 }

-- The processors below `n` take steps in any order. Both loops end when `aps_started` is not below
-- `aps_expected`, which smp_init sets to `cpu_count - 1`.
pub data Step (n : ℕ) : Smp → Smp → Type 0 where
  wakes : (c : ℕ) (s : Smp) → c < n → s.phase c ≡ asleep → Step n s (wake c s)
  checks_in : (c : ℕ) (s : Smp) → c < n → s.phase c ≡ starting → Step n s (check_in c s)
  goes_on :
      (c : ℕ) (s : Smp)
      → c < n
      → s.phase c ≡ waiting
      → s.aps_expected ≤ s.aps_started
      → Step n s (go_on c s)
  finishes : (s : Smp) → s.aps_expected ≤ s.aps_started → Step n s (finish_smp s)

abbrev pub smp_start : (cpu_count : ℕ) → Smp
smp_start cpu_count = record {
  aps_started = 0;
  aps_expected = u32 (cpu_count + 2 ^ 32 - 1);
  phase = λ c. asleep;
  all_online = 0;
}

pub data Reach (n cpu_count : ℕ) : Smp → Type 0 where
  starts : Reach n cpu_count (smp_start cpu_count)
  steps : (s t : Smp) → Reach n cpu_count s → Step n s t → Reach n cpu_count t

-- The number of processors below `n` that have been counted.
abbrev pub here : Phase → ℕ
here asleep = 0
here starting = 0
here waiting = 1
here working = 1

abbrev pub checked_in : (n : ℕ) → (ℕ → Phase) → ℕ
checked_in zero phases = 0
checked_in (suc n) phases = here (phases n) + checked_in n phases

-- The counter is the number of processors counted, and whoever goes on knows that all are there.
pub record Synchronised (n cpu_count : ℕ) (s : Smp) : Type 0 where
  pub counter : s.aps_started ≡ checked_in n s.phase
  pub expected : s.aps_expected ≡ u32 (cpu_count + 2 ^ 32 - 1)
  pub barrier : (c : ℕ) → s.phase c ≡ working → s.aps_expected ≤ checked_in n s.phase
  pub finished : s.all_online ≡ 1 → s.aps_expected ≤ checked_in n s.phase

entered_self : (c : ℕ) (v : Phase) (phases : ℕ → Phase) → enter c v phases c ≡ v
entered_self c v phases = ground arith

entered_other : (c d : ℕ) (v : Phase) (phases : ℕ → Phase) → d ≢ c → enter c v phases d ≡ phases d
entered_other c d v phases other = ground (arith, other)

same_or_other : (a b : ℕ) → (a ≡ b) ⊎ (a ≢ b)
same_or_other a b = ground arith

-- A move of one processor changes the number by its own part.
checked-enter_out :
    (n c : ℕ) (v : Phase) (phases : ℕ → Phase)
    → n ≤ c
    → checked_in n (enter c v phases) ≡ checked_in n phases
checked-enter_out zero c v phases out = refl
checked-enter_out (suc n) c v phases out = omega (
  arith,
  ap here (entered_other c n v phases (λ e. absurd (omega (arith, e, out)))),
  checked-enter_out n c v phases (omega (arith, out)),
)

checked-enter :
    (n c : ℕ) (v : Phase) (phases : ℕ → Phase)
    → c < n
    → checked_in n (enter c v phases) + here (phases c) ≡ checked_in n phases + here v
checked-enter zero c v phases low = absurd (omega (arith, low))
checked-enter (suc n) c v phases low = elim (same_or_other n c) [
  | inl same ↦ omega (
    arith,
    ap here (ap (enter c v phases) same ∙ entered_self c v phases),
    ap (λ d. here (phases d)) same,
    checked-enter_out n c v phases (omega (arith, same)),
  )
  | inr other ↦ omega (
    arith,
    ap here (entered_other c n v phases other),
    checked-enter n c v phases (ground (arith, low, other)),
  )
]

checked_le : (n : ℕ) (phases : ℕ → Phase) → checked_in n phases ≤ n
checked_le zero phases = omega arith
checked_le (suc n) phases = omega (arith, here_le (phases n), checked_le n phases)
  where
    here_le : (v : Phase) → here v ≤ 1
    here_le asleep = omega arith
    here_le starting = omega arith
    here_le waiting = omega arith
    here_le working = omega arith

-- A processor that works behind a move to another phase did so before.
was_working :
    (c d : ℕ) (v : Phase) (phases : ℕ → Phase)
    → v ≢ working
    → enter c v phases d ≡ working
    → phases d ≡ working
was_working c d v phases out now = elim (same_or_other d c) [
  | inl same ↦ absurd (out (sym (entered_self c v phases) ∙ ap (enter c v phases) (sym same) ∙ now))
  | inr other ↦ sym (entered_other c d v phases other) ∙ now
]

starting_ne : starting ≢ working
starting_ne e = ground (arith, e)

waiting_ne : waiting ≢ working
waiting_ne e = ground (arith, e)

asleep_ne : asleep ≢ working
asleep_ne e = ground (arith, e)

Step-Synchronised :
    (n cpu_count : ℕ) (s t : Smp)
    → n < 2 ^ 32
    → Step n s t
    → Synchronised n cpu_count s
    → Synchronised n cpu_count t
unfolding check_in go_on wake finish_smp
Step-Synchronised n cpu_count s t small (wakes c _ low sleeps) sync =
    let count : checked_in n (enter c starting s.phase) ≡ checked_in n s.phase =
      omega (arith, checked-enter n c starting s.phase low, ap here sleeps) in
    record {
      counter = sync.counter ∙ sym count;
      expected = sync.expected;
      barrier = λ d works.
          omega (arith, count, sync.barrier d (was_working c d starting s.phase starting_ne works));
      finished = λ online. omega (arith, count, sync.finished online);
    }
Step-Synchronised n cpu_count s t small (checks_in c _ low begins) sync =
    let count : checked_in n (enter c waiting s.phase) ≡ checked_in n s.phase + 1 =
      omega (arith, checked-enter n c waiting s.phase low, ap here begins) in
    record {
      counter = omega (arith, count, sync.counter, small, checked_le n (enter c waiting s.phase));
      expected = sync.expected;
      barrier = λ d works.
          omega (arith, count, sync.barrier d (was_working c d waiting s.phase waiting_ne works));
      finished = λ online. omega (arith, count, sync.finished online);
    }
Step-Synchronised n cpu_count s t small (goes_on c _ low waits all_there) sync =
    let count : checked_in n (enter c working s.phase) ≡ checked_in n s.phase =
      omega (arith, checked-enter n c working s.phase low, ap here waits) in
    record {
      counter = sync.counter ∙ sym count;
      expected = sync.expected;
      barrier = λ d works. omega (arith, count, all_there, sync.counter);
      finished = λ online. omega (arith, count, sync.finished online);
    }
Step-Synchronised n cpu_count s t small (finishes _ all_there) sync = record {
  counter = sync.counter;
  expected = sync.expected;
  barrier = sync.barrier;
  finished = λ online. omega (arith, all_there, sync.counter);
}

none_checked_in : (n : ℕ) → checked_in n (λ c. asleep) ≡ 0
none_checked_in zero = refl
none_checked_in (suc n) = omega (arith, none_checked_in n)

-- In every state that the processors reach, whatever the order of their steps, for less than 2 ^ 32
-- processors: `aps_started` is the number of those that have come to the count of ap_main, and a
-- processor that has left the wait of ap_main, or smp_init at its end, does so only behind the expected
-- number of them.
pub Reach-Synchronised :
    (n cpu_count : ℕ) (s : Smp) → n < 2 ^ 32 → Reach n cpu_count s → Synchronised n cpu_count s
Reach-Synchronised n cpu_count s small starts = record {
  counter = sym (none_checked_in n);
  expected = refl;
  barrier = λ c works. absurd (asleep_ne works);
  finished = λ online. absurd (omega (arith, online));
}
Reach-Synchronised n cpu_count t small (steps s _ reach step) =
    Step-Synchronised n cpu_count s t small step (Reach-Synchronised n cpu_count s small reach)
