-- ===== src/Hpet/Sleep.antt =====
-- The waits of drivers/hpet.c.
use neko_os_c.Prelude.{
  ℕ, zero, suc, ◌+◌, ◌*◌, ◌/◌, ◌^◌, ◌≤◌, ◌<◌, ◌≡◌, ap, ◌⊎◌, inl, inr, true, false, lt→ltb, u64, Run,
  ok, arith,
}
use mathlib.Core.Path.{subst⁻¹}
use neko_os_c.Hpet.{Hpet, Ticks, wait_until, hpet_sleep_us, sleep_ticks}

-- The counter does not go back, and it moves on between two reads before it comes to the target.
abbrev pub Advances : Ticks → (target : ℕ) → Type 0
Advances ticks target =
    (j : ℕ) → (ticks j ≤ ticks (suc j)) × (ticks j < target → ticks j < ticks (suc j))

-- The read `k` is the first behind read `i` that shows the target.
abbrev pub Reaches : Ticks → (i k target : ℕ) → Type 0
Reaches ticks i k target =
    (i < k) × (target ≤ ticks k) × ((j : ℕ) → i < j → j < k → ticks j < target)

abbrev pub Waited : Ticks → (i target : ℕ) → Run ℕ → Type 0
Waited ticks i target r = (k : ℕ) × (r ≡ ok (suc k)) × Reaches ticks i k target

less_or_reached : (a b : ℕ) → (a < b) ⊎ (b ≤ a)
less_or_reached a b = ground arith

first_or_later : (i j : ℕ) → i < j → (j ≡ suc i) ⊎ (suc i < j)
first_or_later i j below = ground arith

wait_more :
    (fuel i target : ℕ) (ticks : Ticks)
    → ticks i < target
    → wait_until (suc fuel) i target ticks ≡ wait_until fuel (suc i) target ticks
unfolding wait_until
wait_more fuel i target ticks below =
    ap (λ b. elim b [ true ↦ wait_until fuel (suc i) target ticks | false ↦ ok (suc i) ])
      (lt→ltb (ticks i) target below)

wait_stop :
    (fuel i target : ℕ) (ticks : Ticks)
    → target ≤ ticks i
    → wait_until (suc fuel) i target ticks ≡ ok (suc i)
unfolding wait_until
wait_stop fuel i target ticks reached = ground (arith, reached)

-- The read that the wait goes on from was too early.
before-Waited :
    (ticks : Ticks) (i target : ℕ) (r : Run ℕ)
    → ticks (suc i) < target
    → Waited ticks (suc i) target r
    → Waited ticks i target r
before-Waited ticks i target r below (k, returns, (later, reached, early)) = (
  k,
  returns,
  (
    omega (arith, later),
    reached,
    λ j from to. elim (first_or_later i j from) [
      | inl same ↦ subst⁻¹ (λ n. ticks n < target) same below
      | inr behind ↦ early j behind to
    ],
  ),
)

now-Waited :
    (f i target : ℕ) (ticks : Ticks)
    → target ≤ ticks (suc i)
    → Waited ticks i target (wait_until (suc f) (suc i) target ticks)
now-Waited f i target ticks reached = (
  suc i,
  wait_stop f (suc i) target ticks reached,
  (omega arith, reached, λ j from to. absurd (omega (arith, from, to))),
)

-- A round for each step of the counter that is missing is enough.
wait_until-Waited :
    (fuel i target : ℕ) (ticks : Ticks)
    → Advances ticks target
    → target ≤ ticks (suc i) + fuel
    → Waited ticks i target (wait_until (suc fuel) (suc i) target ticks)
wait_until-Waited zero i target ticks moves near =
    now-Waited zero i target ticks (omega (arith, near))
wait_until-Waited (suc f) i target ticks moves near =
    elim (less_or_reached (ticks (suc i)) target) [
      | inr reached ↦ now-Waited (suc f) i target ticks reached
      | inl below ↦
          let rest =
            wait_until-Waited f (suc i) target ticks moves
              (omega (arith, near, (moves (suc i)).1 below)) in
          subst⁻¹ (Waited ticks i target) (wait_more (suc f) (suc i) target ticks below) (
            before-Waited ticks i target (wait_until (suc f) (suc (suc i)) target ticks) below rest)
    ]

-- hpet_sleep_us returns, where neither its product nor its sum wraps and the counter advances between
-- two reads, within one round for each tick of the wait and one more: it returns on the first read that
-- shows `us` microseconds' ticks more than the read it starts with.
pub hpet_sleep_us-Waited :
    (fuel i us : ℕ) (ticks : Ticks) (h : Hpet)
    → us * h.freq < 2 ^ 64
    → ticks i + us * h.freq / 1000000 < 2 ^ 64
    → Advances ticks (ticks i + us * h.freq / 1000000)
    → us * h.freq / 1000000 ≤ fuel
    → Waited ticks i (ticks i + us * h.freq / 1000000) (hpet_sleep_us (suc fuel) i us ticks h)
unfolding hpet_sleep_us
hpet_sleep_us-Waited fuel i us ticks h product sum moves enough =
    let target : u64 (ticks i + sleep_ticks us h.freq) ≡ ticks i + us * h.freq / 1000000 =
      omega (arith, product, sum) in
    subst⁻¹
      (λ t.
        Waited ticks i (ticks i + us * h.freq / 1000000) (wait_until (suc fuel) (suc i) t ticks))
      target
      (wait_until-Waited fuel i (ticks i + us * h.freq / 1000000) ticks moves
        (omega (arith, (moves i).0, enough)))
