-- ===== src/Format/Print.antt =====
-- lib/sprintf.c and lib/console.c: one value of each kind, printed on the character output
-- `putchar`.
use neko_os_c.Prelude.{
  ℕ, zero, suc, ◌+◌, ◌-◌, ◌/◌, ◌^◌, ◌%◌, Bool, true, false, ◌&&◌, ◌||◌, not, Option, none, some,
  List, [], ◌∷◌, ◌==◌, ltb, leb, if◌then◌else◌, u8, u16, u32, u64, length, Run, ok, out_of_fuel,
  fault, ◌>>=◌,
}
use neko_os_c.Format.Parse.{Flags, no_flags, Spec, Width, len_default, len_h, len_hh}

-- A value of `w` bits, signed, as 64 bits.
abbrev pub sign_extend : ℕ → ℕ → ℕ
sign_extend w v = if ltb (v % 2 ^ w) (2 ^ (w - 1)) then v % 2 ^ w else v % 2 ^ w + (2 ^ 64 - 2 ^ w)

abbrev pub signed_arg : Width → ℕ → ℕ
signed_arg len_hh a = sign_extend 8 a
signed_arg len_h a = sign_extend 16 a
signed_arg len_default a = sign_extend 32 a
signed_arg m a = u64 a

abbrev pub unsigned_arg : Width → ℕ → ℕ
unsigned_arg len_hh a = u8 a
unsigned_arg len_h a = u16 a
unsigned_arg len_default a = u32 a
unsigned_arg m a = u64 a

abbrev pub digit : Bool → ℕ → ℕ
digit upper d = if ltb d 10 then 48 + d else if upper then 55 + d else 87 + d

-- Fills `char buf[64]` with digits, of which `n` more fit; the list starts at `buf[i - 1]`. A digit
-- too many is written behind the buffer.
unfoldable pub fill_digits : (n : ℕ) → Bool → (base value : ℕ) → List ℕ → Run (List ℕ)
fill_digits zero upper base value buf = if value == 0 then ok buf else fault
fill_digits (suc n) upper base value buf = elim (value == 0) [
  | true ↦ ok buf
  | false ↦ fill_digits n upper base (value / base) (digit upper (value % base) ∷ buf)
]

abbrev pub precision_is_zero : Option ℕ → Bool
precision_is_zero none = false
precision_is_zero (some n) = n == 0

-- `(precision > i) ? precision : i`.
abbrev pub precision_or : Option ℕ → ℕ → ℕ
precision_or none i = i
precision_or (some n) i = if ltb i n then n else i

unfoldable pub uint_digits : Bool → (base value : ℕ) → Option ℕ → Run (List ℕ)
uint_digits upper base value precision =
    if value == 0 && not (precision_is_zero precision)
    then ok (48 ∷ [])
    else fill_digits 64 upper base value []

-- `temp`, divided by 10 until it is 0.
unfoldable pub count_digits : ℕ → (temp count : ℕ) → Run ℕ
count_digits zero temp count = if temp == 0 then ok count else out_of_fuel
count_digits (suc f) temp count = elim (temp == 0) [
  | true ↦ ok count
  | false ↦ count_digits f (temp / 10) (suc count)
]

abbrev pub prefix_length : Bool → ℕ → ℕ
prefix_length alternate base =
    if alternate then (if base == 16 then 2 else if base == 8 then 1 else 0) else 0

-- `while (str[len] && (precision < 0 || len < precision)) len++`, on an int.
unfoldable pub str_length : ℕ → (ℕ → ℕ) → Option ℕ → ℕ → Run ℕ
str_length zero str precision len = fault
str_length (suc f) str precision len =
    elim (not (str len == 0) && elim precision [ none ↦ true | some n ↦ ltb len n ]) [
      | true ↦ str_length f str precision (suc len)
      | false ↦ ok len
    ]

module _ {ℓ} {S : Type ℓ} (putchar : ℕ → S → Run S) where
  -- `while (width > count) { putchar(c); width--; }`.
  unfoldable pub pad : (c width count : ℕ) → S → Run S
  pad c zero count s = ok s
  pad c (suc w) count s = elim (ltb count (suc w)) [
    | true ↦ putchar c s >>= pad c w count
    | false ↦ ok s
  ]

  -- The characters of a list, in order.
  unfoldable pub print : List ℕ → S → Run S
  print [] s = ok s
  print (c ∷ cs) s = putchar c s >>= print cs

  -- `for (int i = 0; i < len; i++) putchar(str[i])`, of which `n` rounds are left.
  unfoldable pub print_from : (n : ℕ) → (ℕ → ℕ) → ℕ → S → Run S
  print_from zero str i s = ok s
  print_from (suc n) str i s = putchar (str i) s >>= print_from n str (suc i)

  unfoldable pub print_uint : (value base width : ℕ) → Option ℕ → Flags → Bool → S → Run S
  print_uint value base width precision fl upper s =
      uint_digits upper base value precision >>= λ buf.
      let i = length buf in
      let actual_precision = precision_or precision i in
      let count = actual_precision + prefix_length fl.alternate base in
      (if fl.left then ok s else pad (if fl.zeros then 48 else 32) width count s) >>= λ s1.
      (if fl.alternate
        then (if base == 16
            then print (48 ∷ (if upper then 88 else 120) ∷ []) s1
            else if base == 8
            then putchar 48 s1
            else ok s1)
        else ok s1)
      >>= λ s2. pad 48 actual_precision i s2 >>= λ s3.
          print buf s3 >>= λ s4. if fl.left then pad 32 width count s4 else ok s4

  -- `value` is a signed number of 64 bits; the negation of the least one is undefined.
  unfoldable pub print_int : (value width : ℕ) → Option ℕ → Flags → S → Run S
  print_int value width precision fl s =
      let neg = leb (2 ^ 63) value in
      (if value == 2 ^ 63 then fault else ok (if neg then 2 ^ 64 - value else value))
      >>= λ magnitude.
          count_digits 64 magnitude
            (if magnitude == 0 && not (precision_is_zero precision) then 1 else 0)
          >>= λ digits.
              let count =
                precision_or precision digits + (if neg || fl.plus || fl.space then 1 else 0) in
              (if not fl.left && not fl.zeros then pad 32 width count s else ok s) >>= λ s1.
              (if neg
                then putchar 45 s1
                else if fl.plus
                then putchar 43 s1
                else if fl.space
                then putchar 32 s1
                else ok s1)
              >>= λ s2. (if not fl.left && fl.zeros then pad 48 width count s2 else ok s2) >>= λ s3.
                  print_uint magnitude 10 0 precision no_flags false s3 >>= λ s4.
                  if fl.left then pad 32 width count s4 else ok s4

  -- `%c`: `while (--width > 0)` prints while more than 1 is left of the width.
  unfoldable pub print_char : (c : ℕ) → Spec → S → Run S
  print_char c sp s = (if sp.flags.left then ok s else pad 32 sp.width 1 s) >>= λ s1.
      putchar c s1 >>= λ s2. if sp.flags.left then pad 32 sp.width 1 s2 else ok s2

  unfoldable pub print_str : (ℕ → ℕ) → Spec → S → Run S
  print_str str sp s = str_length (2 ^ 31) str sp.precision 0 >>= λ len.
      (if sp.flags.left then ok s else pad 32 sp.width len s) >>= λ s1.
      print_from len str 0 s1 >>= λ s2. if sp.flags.left then pad 32 sp.width len s2 else ok s2

  -- `%u`, `%o`, `%x` and `%X`.
  unfoldable pub print_unsigned : (c a : ℕ) → Spec → S → Run S
  print_unsigned c a sp s =
      print_uint (unsigned_arg sp.modifier a)
        (if c == 111 then 8 else if c == 120 || c == 88 then 16 else 10) sp.width sp.precision
        sp.flags (c == 88) s
