-- ===== src/Format/Width.antt =====
-- lib/sprintf.c and lib/console.c: the width of a printed field.
use neko_os_c.Prelude.{
  ℕ, ◌+◌, ◌-◌, ◌^◌, ◌≤◌, ◌<◌, ◌≡◌, ◌≢◌, refl, ap, sym, ◌∙◌, Bool, true, false, ◌&&◌, ◌||◌, not,
  Option, none, some, List, [], ◌∷◌, ◌++◌, ◌==◌, leb, if◌then◌else◌, length, Run, replicate, arith,
  length-append, length-replicate,
}
use Prim.Native.Nat.{max}
use neko_os_c.Format.Parse.{Flags, no_flags}
use neko_os_c.Format.Print.{print, print_uint, print_int, precision_or, prefix_length}
use neko_os_c.Format.Text.{before, after, prefix, uint_text}
use neko_os_c.Format.Int.{int_text, magnitude, print_int_printed, sign, print_uint_run}
use neko_os_c.Format.Digits.{IsBase, value_of, uint_digits-value_of}

-- The characters that a number with `n` digits and a sign or prefix of `extra` needs.
abbrev pub needed : Option ℕ → (n extra : ℕ) → ℕ
needed none n extra = n + extra
needed (some p) n extra = max p n + extra

needed_is :
    (precision : Option ℕ) (n extra : ℕ)
    → precision_or precision n + extra ≡ needed precision n extra
needed_is none n extra = refl
needed_is (some p) n extra = ground arith

digits_fit : (precision : Option ℕ) (n : ℕ) → n ≤ precision_or precision n
digits_fit none n = omega arith
digits_fit (some p) n = ground arith

length-prefix :
    (alternate : Bool) (base : ℕ) (upper : Bool)
    → length (prefix alternate base upper) ≡ prefix_length alternate base
length-prefix false base upper = refl
length-prefix true base upper = go (base == 16) (base == 8) (if upper then 88 else 120)
  where
    go :
        (b16 b8 : Bool) (c : ℕ)
        → length (if b16 then 48 ∷ c ∷ [] else if b8 then 48 ∷ [] else [])
          ≡ (if b16 then 2 else if b8 then 1 else 0)
    go true b8 c = refl
    go false true c = refl
    go false false c = refl

length-pad : (n c : ℕ) → length (replicate n c) ≡ n
length-pad n c = length-replicate n c

length-pads :
    (left : Bool) (c width count : ℕ)
    → length (before left c width count) + length (after left width count) ≡ width - count
length-pads true c width count = omega (arith, length-pad (width - count) 32)
length-pads false c width count = omega (arith, length-pad (width - count) c)

-- Five pieces, of which the second to the fourth make the field's content.
length-pieces :
    (a b c d e : List ℕ)
    → length (a ++ (b ++ (c ++ (d ++ e))))
      ≡ length a + length e + (length b + (length c + length d))
length-pieces a b c d e = omega (
  arith,
  length-append a (b ++ (c ++ (d ++ e))),
  length-append b (c ++ (d ++ e)),
  length-append c (d ++ e),
  length-append d e,
)

pub length-uint_text :
    (buf : List ℕ) (base width : ℕ) (precision : Option ℕ) (fl : Flags) (upper : Bool)
    → length (uint_text buf base width precision fl upper)
      ≡ max width (needed precision (length buf) (prefix_length fl.alternate base))
length-uint_text buf base width precision fl upper =
    let wanted = precision_or precision (length buf) in
    let count = wanted + prefix_length fl.alternate base in
    let c : ℕ = if fl.zeros then 48 else 32 in
    omega (
      arith,
      length-pieces (before fl.left c width count) (prefix fl.alternate base upper)
          (replicate (wanted - length buf) 48) buf (after fl.left width count),
      length-pads fl.left c width count,
      length-prefix fl.alternate base upper,
      length-pad (wanted - length buf) 48,
      digits_fit precision (length buf),
      needed_is precision (length buf) (prefix_length fl.alternate base),
    )

-- On every device, a value of 64 bits in base 8, 10 or 16 is printed as `uint_text` of digits that say
-- the value: padding, prefix, zeros up to the precision, digits, padding. These are as many characters
-- as the width asks for, or as the number needs where that is more.
pub print_uint-uint_text :
    {S : Type 0} (putchar : ℕ → S → Run S) (value base width : ℕ) (precision : Option ℕ)
    (fl : Flags) (upper : Bool) (s : S)
    → IsBase base
    → value < 2 ^ 64
    → (buf : List ℕ) × ((value_of base 0 buf ≡ value)
        × ((print_uint putchar value base width precision fl upper s
              ≡ print putchar (uint_text buf base width precision fl upper) s)
            × (length (uint_text buf base width precision fl upper)
                ≡ max width (needed precision (length buf) (prefix_length fl.alternate base)))))
print_uint-uint_text putchar value base width precision fl upper s is fits =
    let (buf, (run, (says, fit))) = uint_digits-value_of upper base value precision is fits in
    (
      buf,
      (
        says,
        (
          print_uint_run putchar value base width precision fl upper buf s run,
          length-uint_text buf base width precision fl upper,
        ),
      ),
    )

length-sign :
    (neg plus space : Bool)
    → length {A = ℕ}
        (if neg then 45 ∷ [] else if plus then 43 ∷ [] else if space then 32 ∷ [] else [])
      ≡ (if neg || plus || space then 1 else 0)
length-sign true plus space = refl
length-sign false true space = refl
length-sign false false true = refl
length-sign false false false = refl

length-int_pads :
    (left zeros : Bool) (n : ℕ)
    → length {A = ℕ} (if not left && not zeros then replicate n 32 else [])
        + (length {A = ℕ} (if not left && zeros then replicate n 48 else [])
            + length {A = ℕ} (if left then replicate n 32 else []))
      ≡ n
length-int_pads true zeros n = omega (arith, length-pad n 32)
length-int_pads false true n = omega (arith, length-pad n 48)
length-int_pads false false n = omega (arith, length-pad n 32)

pub length-int_text :
    (buf : List ℕ) (neg : Bool) (width : ℕ) (precision : Option ℕ) (fl : Flags)
    → length (int_text buf neg width precision fl)
      ≡ max width (needed precision (length buf) (if neg || fl.plus || fl.space then 1 else 0))
length-int_text buf neg width precision fl =
    let extra : ℕ = if neg || fl.plus || fl.space then 1 else 0 in
    let n = width - (precision_or precision (length buf) + extra) in
    omega (
      arith,
      length-pieces (if not fl.left && not fl.zeros then replicate n 32 else []) (sign neg fl)
          (if not fl.left && fl.zeros then replicate n 48 else [])
          (uint_text buf 10 0 precision no_flags false) (if fl.left then replicate n 32 else []),
      length-int_pads fl.left fl.zeros n,
      length-sign neg fl.plus fl.space,
      length-uint_text buf 10 0 precision no_flags false,
      needed_is precision (length buf) extra,
      needed_is precision (length buf) 0,
    )

-- On every device, a value of 64 bits other than the least is printed as `int_text` of digits that
-- say its magnitude: padding, the sign '-', '+' or ' ', zeros, digits, padding. These are as many
-- characters as the width asks for, or as the number needs where that is more.
pub print_int-int_text :
    {S : Type 0} (putchar : ℕ → S → Run S) (value width : ℕ) (precision : Option ℕ) (fl : Flags)
    (s : S)
    → value < 2 ^ 64
    → value ≢ 2 ^ 63
    → (buf : List ℕ) × ((value_of 10 0 buf ≡ magnitude value)
        × ((print_int putchar value width precision fl s
              ≡ print putchar (int_text buf (leb (2 ^ 63) value) width precision fl) s)
            × (length (int_text buf (leb (2 ^ 63) value) width precision fl)
                ≡ max width
                    (needed precision (length buf) (length (sign (leb (2 ^ 63) value) fl))))))
print_int-int_text putchar value width precision fl s fits least =
    let (buf, (says, run)) = print_int_printed putchar value width precision fl s fits least in
    (
      buf,
      (
        says,
        (
          run,
          length-int_text buf (leb (2 ^ 63) value) width precision fl
              ∙ ap (λ n. max width (needed precision (length buf) n))
                  (sym (length-sign (leb (2 ^ 63) value) fl.plus fl.space)),
        ),
      ),
    )
