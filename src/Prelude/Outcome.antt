-- ===== src/Prelude/Outcome.antt =====
-- The outcome of a kernel routine.

use mathlib.Core.Path.{◌≡◌, refl, ap}

-- `panic` is a call of `kpanic`, which does not return; `out_of_fuel` is a loop that did not end
-- within the rounds that the model allows it; `fault` is an access through a null pointer or out of an
-- array's bounds, which C leaves undefined.
pub data Run {ℓ} (A : Type ℓ) : Type ℓ where
  ok : A → Run A
  panic : Run A
  out_of_fuel : Run A
  fault : Run A

infixl 5 ◌>>=◌
abbrev pub ◌>>=◌ {ℓ κ} : {A : Type ℓ} {B : Type κ} → Run A → (A → Run B) → Run B
ok a >>= f = f a
panic >>= f = panic
out_of_fuel >>= f = out_of_fuel
fault >>= f = fault

-- A routine that goes on from a result, and one that a panic ends.
pub then_ok {ℓ κ} :
    {A : Type ℓ} {B : Type κ} (r : Run A) (a : A) (k : A → Run B) → r ≡ ok a → (r >>= k) ≡ k a
then_ok r a k e = ap (λ s. s >>= k) e

pub then_panic {ℓ κ} :
    {A : Type ℓ} {B : Type κ} (r : Run A) (k : A → Run B) → r ≡ panic → (r >>= k) ≡ panic
then_panic r k e = ap (λ s. s >>= k) e

pub bind_assoc {ℓ κ μ} :
    {A : Type ℓ} {B : Type κ} {C : Type μ} (r : Run A) (f : A → Run B) (g : B → Run C)
    → (r >>= f >>= g) ≡ (r >>= λ a. f a >>= g)
bind_assoc (ok a) f g = refl
bind_assoc panic f g = refl
bind_assoc out_of_fuel f g = refl
bind_assoc fault f g = refl

pub bind_cong {ℓ κ} :
    {A : Type ℓ} {B : Type κ} (r : Run A) {f g : A → Run B}
    → ((a : A) → f a ≡ g a)
    → (r >>= f) ≡ (r >>= g)
bind_cong (ok a) e = e a
bind_cong panic e = refl
bind_cong out_of_fuel e = refl
bind_cong fault e = refl

pub bind_ok {ℓ} : {A : Type ℓ} (r : Run A) → (r >>= ok) ≡ r
bind_ok (ok a) = refl
bind_ok panic = refl
bind_ok out_of_fuel = refl
bind_ok fault = refl
