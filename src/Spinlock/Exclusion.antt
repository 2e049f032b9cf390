-- ===== src/Spinlock/Exclusion.antt =====
-- The processors exclude each other by the lock of include/spinlock.h.
use neko_os_c.Prelude.{ℕ, ◌==◌, ◌≡◌, ◌≢◌, refl, sym, ap, ◌∙◌, ◌⊎◌, inl, inr, if◌then◌else◌, arith}
use neko_os_c.Spinlock.{
  Place, outside, spinning, inside, System, move, acquire_round, spinlock_release, spinlock_acquire,
  calls, tries, leaves, Reach, starts, steps,
}

-- At most one processor is inside, and the lock is taken exactly while one is.
pub record Exclusive (s : System) : Type 0 where
  pub one : (c d : ℕ) → s.place c ≡ inside → s.place d ≡ inside → c ≡ d
  pub taken : (c : ℕ) → s.place c ≡ inside → s.locked ≢ 0
  pub held : s.locked ≢ 0 → (c : ℕ) × (s.place c ≡ inside)

moved_self : (c : ℕ) (v : Place) (places : ℕ → Place) → move c v places c ≡ v
moved_self c v places = ground arith

moved_other : (c d : ℕ) (v : Place) (places : ℕ → Place) → d ≢ c → move c v places d ≡ places d
moved_other c d v places other = ground (arith, other)

same_or_other : (a b : ℕ) → (a ≡ b) ⊎ (a ≢ b)
same_or_other a b = ground arith

-- A processor that is inside behind a move to another place was so before.
was_inside :
    (c d : ℕ) (v : Place) (places : ℕ → Place)
    → v ≢ inside
    → move c v places d ≡ inside
    → (d ≢ c) × (places d ≡ inside)
was_inside c d v places out now = elim (same_or_other d c) [
  | inl same ↦ absurd (out (sym (moved_self c v places) ∙ ap (move c v places) (sym same) ∙ now))
  | inr other ↦ (other, sym (moved_other c d v places other) ∙ now)
]

outside_ne : outside ≢ inside
outside_ne e = ground (arith, e)

spinning_ne : spinning ≢ inside
spinning_ne e = ground (arith, e)

calls-Exclusive :
    (c : ℕ) (s : System) → s.place c ≡ outside → Exclusive s → Exclusive (spinlock_acquire c s)
unfolding spinlock_acquire
calls-Exclusive c s out ex = record {
  one = λ a b ia ib.
      ex.one a b (was_inside c a spinning s.place spinning_ne ia).1
        (was_inside c b spinning s.place spinning_ne ib).1;
  taken = λ a ia. ex.taken a (was_inside c a spinning s.place spinning_ne ia).1;
  held = λ locked.
      let (d, inside_d) = ex.held locked in
      (
        d,
        moved_other c d spinning s.place
              (λ same. outside_ne (sym out ∙ ap s.place (sym same) ∙ inside_d))
            ∙ inside_d,
      );
}

leaves-Exclusive :
    (c : ℕ) (s : System) → s.place c ≡ inside → Exclusive s → Exclusive (spinlock_release c s)
unfolding spinlock_release
leaves-Exclusive c s in_c ex =
    let nobody = λ (a : ℕ) (ia : move c outside s.place a ≡ inside).
      let (other, before) = was_inside c a outside s.place outside_ne ia in
      other (ex.one a c before in_c) in
    record {
      one = λ a b ia ib. absurd (nobody a ia);
      taken = λ a ia locked. nobody a ia;
      held = λ locked. absurd (locked refl);
    }

tries-Exclusive :
    (c : ℕ) (s : System) → s.place c ≡ spinning → Exclusive s → Exclusive (acquire_round c s)
unfolding acquire_round
tries-Exclusive c s spins ex = elim (same_or_other s.locked 0) [
  | inl free ↦
      let goes : (if s.locked == 0 then inside else spinning) ≡ inside = ground (arith, free) in
      let only =
        λ (a : ℕ) (ia : move c (if s.locked == 0 then inside else spinning) s.place a ≡ inside).
          only_mover c a _ s.place (λ before. ex.taken a before free) ia in
      record {
        one = λ a b ia ib. only a ia ∙ sym (only b ib);
        taken = λ a ia locked. absurd (omega (arith, locked));
        held = λ locked. (c, moved_self c _ s.place ∙ goes);
      }
  | inr busy ↦
      let stays : (if s.locked == 0 then inside else spinning) ≡ spinning = ground (arith, busy) in
      let out : (if s.locked == 0 then inside else spinning) ≢ inside =
        λ e. spinning_ne (sym stays ∙ e) in
      record {
        one = λ a b ia ib.
            ex.one a b (was_inside c a _ s.place out ia).1 (was_inside c b _ s.place out ib).1;
        taken = λ a ia locked. absurd (omega (arith, locked));
        held = λ locked.
            let (d, inside_d) = ex.held busy in
            (
              d,
              moved_other c d _ s.place
                    (λ same. spinning_ne (sym spins ∙ ap s.place (sym same) ∙ inside_d))
                  ∙ inside_d,
            );
      }
]
  where
    only_mover :
        (c a : ℕ) (v : Place) (places : ℕ → Place)
        → places a ≢ inside
        → move c v places a ≡ inside
        → a ≡ c
    only_mover c a v places out now = elim (same_or_other a c) [
      | inl same ↦ same
      | inr other ↦ absurd (out (sym (moved_other c a v places other) ∙ now))
    ]

-- In every state that the processors reach, whatever the order of their steps, at most one is behind
-- spinlock_acquire, and the lock is taken exactly while one is.
pub Reach-Exclusive : (s : System) → Reach s → Exclusive s
Reach-Exclusive s starts = record {
  one = λ a b ia ib. absurd (outside_ne ia);
  taken = λ a ia. absurd (outside_ne ia);
  held = λ locked. absurd (locked refl);
}
Reach-Exclusive t (steps s _ reach (calls c _ out)) =
    calls-Exclusive c s out (Reach-Exclusive s reach)
Reach-Exclusive t (steps s _ reach (tries c _ spins)) =
    tries-Exclusive c s spins (Reach-Exclusive s reach)
Reach-Exclusive t (steps s _ reach (leaves c _ in_c)) =
    leaves-Exclusive c s in_c (Reach-Exclusive s reach)
