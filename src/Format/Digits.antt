-- ===== src/Format/Digits.antt =====
-- lib/sprintf.c and lib/console.c: the digits of a number, in `char buf[64]`.
use neko_os_c.Prelude.{
  ℕ, zero, suc, ◌+◌, ◌-◌, ◌*◌, ◌/◌, ◌^◌, ◌%◌, ◌≤◌, ◌<◌, ◌≡◌, ◌≢◌, refl, ap, sym, ◌∙◌, Bool, true,
  false, ◌&&◌, not, Option, List, [], ◌∷◌, ◌==◌, ltb, if◌then◌else◌, length, ok, fault, Bool-cases,
  inl, inr, ◌>>=◌, arith,
}
use native.Mathlib.Nat.{pow-suc}
use neko_os_c.Format.Print.{fill_digits, uint_digits, count_digits, digit, precision_is_zero}

-- The bases of the conversions.
pub data IsBase : ℕ → Type 0 where
  octal : IsBase 8
  decimal : IsBase 10
  hexadecimal : IsBase 16

abbrev pub digit_value : ℕ → ℕ
digit_value c = if ltb c 58 then c - 48 else if ltb c 71 then c - 55 else c - 87

-- The number that the digits say behind a number `acc`.
abbrev pub value_of : (base acc : ℕ) → List ℕ → ℕ
value_of base acc [] = acc
value_of base acc (c ∷ cs) = value_of base (acc * base + digit_value c) cs

digit_value-digit : (upper : Bool) (d : ℕ) → d < 16 → digit_value (digit upper d) ≡ d
digit_value-digit upper d h = ground arith

digit_below : (base value : ℕ) → IsBase base → value % base < 16
digit_below base value octal = omega arith
digit_below base value decimal = omega arith
digit_below base value hexadecimal = omega arith

shorter : (base value k : ℕ) → IsBase base → value < k + k → value / base < k
shorter base value k octal h = omega (arith, h)
shorter base value k decimal h = omega (arith, h)
shorter base value k hexadecimal h = omega (arith, h)

join_digit : (base value : ℕ) → IsBase base → value / base * base + value % base ≡ value
join_digit base value octal = omega arith
join_digit base value decimal = omega arith
join_digit base value hexadecimal = omega arith

nonzero : (v : ℕ) → (suc v == 0) ≡ false
nonzero v = ground arith

fill_step :
    (n : ℕ) (upper : Bool) (base v : ℕ) (buf : List ℕ)
    → fill_digits (suc n) upper base (suc v) buf
      ≡ fill_digits n upper base (suc v / base) (digit upper (suc v % base) ∷ buf)
unfolding fill_digits
fill_step n upper base v buf = rw (fill_digits, nonzero v) refl

-- `out` holds the digits of `value` in front of `buf`, of which `n` fit.
abbrev pub Filled : (n : ℕ) → Bool → (base value : ℕ) → List ℕ → Type 0
Filled n upper base value buf =
    (out : List ℕ) × ((fill_digits n upper base value buf ≡ ok out)
      × ((value_of base 0 out ≡ value_of base value buf) × (length out ≤ length buf + n)))

fill_digits-Filled :
    (n : ℕ) (upper : Bool) (base value : ℕ) (buf : List ℕ)
    → IsBase base
    → value < 2 ^ n
    → Filled n upper base value buf
unfolding fill_digits
fill_digits-Filled zero upper base zero buf is fits = (buf, (refl, (refl, omega arith)))
fill_digits-Filled zero upper base (suc v) buf is fits = absurd (omega arith)
fill_digits-Filled (suc n) upper base zero buf is fits = (buf, (refl, (refl, omega arith)))
fill_digits-Filled (suc n) upper base (suc v) buf is fits =
    let less : suc v / base < 2 ^ n =
      shorter base (suc v) (2 ^ n) is (omega (arith, pow-suc 2 n)) in
    let c = digit upper (suc v % base) in
    let (out, (run, (says, fit))) =
      fill_digits-Filled n upper base (suc v / base) (c ∷ buf) is less in
    (
      out,
      (
        fill_step n upper base v buf ∙ run,
        (says ∙ ap (λ a. value_of base a buf) pushed, omega (arith, fit)),
      ),
    )
  where
    pushed : suc v / base * base + digit_value (digit upper (suc v % base)) ≡ suc v
    pushed =
        ap (λ d. suc v / base * base + d) (digit_value-digit upper _ (digit_below base (suc v) is))
        ∙ join_digit base (suc v) is

-- For a value of 64 bits in base 8, 10 or 16, the digits are at most the 64 that the buffer holds, and
-- they say the value.
pub uint_digits-value_of :
    (upper : Bool) (base value : ℕ) (precision : Option ℕ)
    → IsBase base
    → value < 2 ^ 64
    → (buf : List ℕ) × ((uint_digits upper base value precision ≡ ok buf)
        × ((value_of base 0 buf ≡ value) × (length buf ≤ 64)))
unfolding uint_digits
uint_digits-value_of upper base value precision is fits =
    let (out, (run, (says, fit))) = fill_digits-Filled 64 upper base value [] is fits in
    elim (Bool-cases (value == 0 && not (precision_is_zero precision))) [
      | inl one ↦ rw one (48 ∷ [], (refl, (zero_digit base value one, omega arith)))
      | inr more ↦ rw more (out, (run, (says, fit)))
    ]
  where
    zero_digit :
        (base value : ℕ)
        → (value == 0 && not (precision_is_zero precision)) ≡ true
        → value_of base 0 (48 ∷ []) ≡ value
    zero_digit base value one = ground arith

count_step :
    (n v count : ℕ) → count_digits (suc n) (suc v) count ≡ count_digits n (suc v / 10) (suc count)
unfolding count_digits
count_step n v count = rw (count_digits, nonzero v) refl

count_none : (n count : ℕ) → count_digits n 0 count ≡ ok count
unfolding count_digits
count_none zero count = refl
count_none (suc n) count = refl

counts :
    (n value : ℕ) (buf out : List ℕ)
    → fill_digits n false 10 value buf ≡ ok out
    → count_digits n value (length buf) ≡ ok (length out)
unfolding fill_digits
counts zero zero buf out run = count_none 0 _ ∙ ap (λ r. r >>= λ b. ok (length b)) run
counts zero (suc v) buf out run = absurd (fails run)
  where
    fails : (if suc v == 0 then ok buf else fault) ≢ ok out
    fails e = ground arith
counts (suc n) zero buf out run = count_none (suc n) _ ∙ ap (λ r. r >>= λ b. ok (length b)) run
counts (suc n) (suc v) buf out run =
    count_step n v _ ∙ counts n (suc v / 10) _ out (sym (fill_step n false 10 v buf) ∙ run)

counts_zero :
    (n : ℕ) (shown : Bool) (buf : List ℕ)
    → (if shown then ok (48 ∷ []) else fill_digits n false 10 0 []) ≡ ok buf
    → count_digits n 0 (if shown then 1 else 0) ≡ ok (length buf)
counts_zero n true buf run = count_none n 1 ∙ ap (λ r. r >>= λ b. ok (length b)) run
counts_zero n false buf run = counts n 0 [] buf run

counts_from :
    (n value : ℕ) (precision : Option ℕ) (buf : List ℕ)
    → (if value == 0 && not (precision_is_zero precision)
        then ok (48 ∷ [])
        else fill_digits n false 10 value [])
      ≡ ok buf
    → count_digits n value (if value == 0 && not (precision_is_zero precision) then 1 else 0)
      ≡ ok (length buf)
counts_from n zero precision buf run = counts_zero n (not (precision_is_zero precision)) buf run
counts_from n (suc v) precision buf run =
    rw (nonzero v) (counts n (suc v) [] buf (sym picked ∙ run))
  where
    picked :
        (if suc v == 0 && not (precision_is_zero precision)
          then ok (48 ∷ [])
          else fill_digits n false 10 (suc v) [])
        ≡ fill_digits n false 10 (suc v) []
    picked = rw (nonzero v) refl

-- The first loop of sprint_int counts the digits that sprint_uint then prints.
pub count_digits-uint_digits :
    (value : ℕ) (precision : Option ℕ) (buf : List ℕ)
    → uint_digits false 10 value precision ≡ ok buf
    → count_digits 64 value (if value == 0 && not (precision_is_zero precision) then 1 else 0)
      ≡ ok (length buf)
unfolding uint_digits
count_digits-uint_digits value precision buf run = counts_from 64 value precision buf run
