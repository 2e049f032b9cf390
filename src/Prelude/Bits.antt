-- ===== src/Prelude/Bits.antt =====
-- Machine words as native numbers: shifts, wrap-around, and the operations on binary digits where they
-- are arithmetic.
use Prim.Native.Nat.{max, min, digits, bit_and, bit_or, bit_and-bitwise, bit_or-bitwise}
use Prim.Native.Nat.{ℕ, zero, suc, ◌+◌, ◌-◌, ◌*◌, ◌/◌, ◌%◌, ◌^◌, ◌≤◌, ◌<◌}
use mathlib.Core.Path.{◌≡◌, refl, ap, ◌∙◌}
use native.Mathlib.Nat.{le_refl, one-le-pow, pow-suc, mul-le-mul_right}
use native.Mathlib.Omega.{arith}

-- Shifts of an unsigned value; the caller wraps.
infixl 75 ◌<<<◌ ◌>>>◌
abbrev pub ◌<<<◌ : ℕ → ℕ → ℕ
x <<< k = x * 2 ^ k

abbrev pub ◌>>>◌ : ℕ → ℕ → ℕ
x >>> k = x / 2 ^ k

abbrev pub u8 : ℕ → ℕ
u8 n = n % 2 ^ 8

abbrev pub u16 : ℕ → ℕ
u16 n = n % 2 ^ 16

abbrev pub u32 : ℕ → ℕ
u32 n = n % 2 ^ 32

abbrev pub u64 : ℕ → ℕ
u64 n = n % 2 ^ 64

-- `x & ~(2^k - 1)` on an unsigned value: its `k` low bits cleared.
abbrev pub clear_low : ℕ → ℕ → ℕ
clear_low k x = x / 2 ^ k * 2 ^ k

-- A product with a power of two, one digit shorter.
halved : (q k : ℕ) → q * 2 ^ suc k ≡ q * 2 ^ k + q * 2 ^ k
halved q k = ap (λ (p : ℕ). q * p) (pow-suc 2 k) ∙ omega arith

-- With `n` digits to go, the digits of `q` stand above the `k` digits of `r`.
or_digits : (n k q r a : ℕ) → a ≡ q * 2 ^ k → a ≤ n → r < 2 ^ k → digits (λ b. b) max n a r ≡ a + r
or_digits zero k q r a shape count low = omega arith
or_digits (suc n) k q r zero shape count low = omega arith
or_digits (suc n) zero q r (suc a) shape count low = omega (
  arith,
  or_digits n zero (suc a / 2) (r / 2) (suc a / 2) (omega arith) (omega arith) (omega arith),
)
or_digits (suc n) (suc k) q r (suc a) shape count low =
    let twice = halved q k in
    omega (
      arith,
      twice,
      or_digits n k q (r / 2) (suc a / 2) (omega (arith, twice)) (omega arith)
          (omega (arith, pow-suc 2 k)),
    )

pub bit_or_fields : (k q r : ℕ) → r < 2 ^ k → bit_or (q <<< k) r ≡ q * 2 ^ k + r
bit_or_fields k q r low =
    simp bit_or-bitwise (or_digits (q <<< k) k q r (q <<< k) refl (le_refl _) low)

-- With `n` digits to go, the mask keeps the lowest `k` digits.
and_digits :
    (n k q r a : ℕ)
    → a ≡ q * 2 ^ k + r
    → a ≤ n
    → r < 2 ^ k
    → digits (λ b. zero) min n a (2 ^ k - 1) ≡ r
and_digits zero k q r a shape count low = omega arith
and_digits (suc n) k q r zero shape count low = omega arith
and_digits (suc n) zero q r (suc a) shape count low =
    omega
      (arith, and_digits n zero (suc a / 2) 0 (suc a / 2) (omega arith) (omega arith) (omega arith))
and_digits (suc n) (suc k) q r (suc a) shape count low =
    let twice = halved q k in
    let half : (2 ^ suc k - 1) / 2 ≡ 2 ^ k - 1 = omega (arith, pow-suc 2 k, one-le-pow k 2) in
    let rest =
      and_digits n k q (r / 2) (suc a / 2) (omega (arith, twice)) (omega arith)
        (omega (arith, pow-suc 2 k)) in
    let kept = ap (λ m. digits (λ b. zero) min n (suc a / 2) m) half ∙ rest in
    omega (arith, twice, pow-suc 2 k, one-le-pow k 2, kept)

pub bit_and_mask : (k a : ℕ) → bit_and a (2 ^ k - 1) ≡ a % 2 ^ k
bit_and_mask k a = simp bit_and-bitwise (
    and_digits a k (a / 2 ^ k) (a % 2 ^ k) a (ground (arith, one-le-pow k 2)) (le_refl _)
      (ground (arith, one-le-pow k 2)))

no_multiple : (k q : ℕ) → 1 ≤ suc q * 2 ^ k
no_multiple k q =
    let some_multiple : 1 * 2 ^ k ≤ suc q * 2 ^ k = mul-le-mul_right (2 ^ k) (omega arith) in
    omega (arith, one-le-pow k 2, some_multiple)

-- With `n` digits to go, the lowest digit of `q` is set above the `k` digits of `r`.
or_bit_digits :
    (n k q r a : ℕ)
    → a ≡ q * 2 ^ k + r
    → a ≤ n
    → r < 2 ^ k
    → digits (λ b. b) max n a (2 ^ k) ≡ (q + (1 - q % 2)) * 2 ^ k + r
or_bit_digits zero k zero r a shape count low = omega arith
or_bit_digits zero k (suc q) r a shape count low = absurd (omega (arith, no_multiple k q))
or_bit_digits (suc n) k zero r zero shape count low = omega arith
or_bit_digits (suc n) k (suc q) r zero shape count low = absurd (omega (arith, no_multiple k q))
or_bit_digits (suc n) zero q r (suc a) shape count low =
    omega
      (arith, or_digits n zero (suc a / 2) 0 (suc a / 2) (omega arith) (omega arith) (omega arith))
or_bit_digits (suc n) (suc k) q r (suc a) shape count low =
    let twice = halved q k in
    let twice_set = halved (q + (1 - q % 2)) k in
    let half : 2 ^ suc k / 2 ≡ 2 ^ k = omega (arith, pow-suc 2 k) in
    let rest =
      or_bit_digits n k q (r / 2) (suc a / 2) (omega (arith, twice)) (omega arith)
        (omega (arith, pow-suc 2 k)) in
    let kept = ap (λ m. digits (λ b. b) max n (suc a / 2) m) half ∙ rest in
    omega (arith, twice, twice_set, pow-suc 2 k, kept)

-- `x | 1 << k` on an unsigned value.
pub bit_or_bit :
    (k x : ℕ) → bit_or x (2 ^ k) ≡ (x / 2 ^ k + (1 - x / 2 ^ k % 2)) * 2 ^ k + x % 2 ^ k
bit_or_bit k x = simp bit_or-bitwise (
    or_bit_digits x k (x / 2 ^ k) (x % 2 ^ k) x (ground (arith, one-le-pow k 2)) (le_refl _)
      (ground (arith, one-le-pow k 2)))
