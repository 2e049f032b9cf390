-- ===== src/Format/Fuel.antt =====
-- lib/sprintf.c and lib/console.c: the loop over a format ends.
use neko_os_c.Prelude.{ℕ, ◌≤◌, length, Run, ok, panic, out_of_fuel, fault}
use neko_os_c.Format.Parse.{Input}

-- `r` ends, and its value is in `P` where it has one.
abbrev Ends : {A : Type 0} → (A → Type 0) → Run A → Type 0
Ends P (ok a) = P a
Ends P panic = Unit {0}
Ends P out_of_fuel = ⊥
Ends P fault = Unit {0}

-- The input that is left is at most `n` characters.
abbrev Left : {A : Type 0} → ℕ → (A × Input) → Type 0
Left n (a, i) = length i.at ≤ n

-- No condition on the value.
abbrev Any : {A : Type 0} → A → Type 0
Any a = Unit {0}
