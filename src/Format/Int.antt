-- ===== src/Format/Int.antt =====
-- lib/sprintf.c and lib/console.c: the characters of a signed number, and the width of its field.
use neko_os_c.Prelude.{
  bind_ok, ℕ, ◌+◌, ◌-◌, ◌^◌, ◌<◌, ◌≡◌, ◌≢◌, refl, ap, sym, ◌∙◌, Bool, true, false, ◌&&◌, ◌||◌, not,
  Option, List, [], ◌∷◌, ◌++◌, ◌==◌, leb, if◌then◌else◌, length, Run, ok, fault, ◌>>=◌, replicate,
  arith,
}
use neko_os_c.Format.Parse.{Flags, no_flags}
use neko_os_c.Format.Print.{pad, print, print_uint, print_int, uint_digits, precision_or}
use neko_os_c.Format.Text.{
  after, uint_text, then_print, print-after, pad-replicate, print_uint_printed,
}
use neko_os_c.Format.Digits.{decimal, value_of, uint_digits-value_of, count_digits-uint_digits}

-- The magnitude of a signed number of 64 bits.
abbrev pub magnitude : ℕ → ℕ
magnitude value = if leb (2 ^ 63) value then 2 ^ 64 - value else value

abbrev pub sign : Bool → Flags → List ℕ
sign neg fl = if neg then 45 ∷ [] else if fl.plus then 43 ∷ [] else if fl.space then 32 ∷ [] else []

-- A signed number with the digits `buf` of its magnitude.
abbrev pub int_text : List ℕ → Bool → (width : ℕ) → Option ℕ → Flags → List ℕ
int_text buf neg width precision fl =
    let count =
      precision_or precision (length buf) + (if neg || fl.plus || fl.space then 1 else 0) in
    (if not fl.left && not fl.zeros then replicate (width - count) 32 else [])
    ++ (sign neg fl
        ++ ((if not fl.left && fl.zeros then replicate (width - count) 48 else [])
            ++ (uint_text buf 10 0 precision no_flags false ++ after fl.left width count)))

magnitude_fits : (value : ℕ) → value < 2 ^ 64 → magnitude value < 2 ^ 64
magnitude_fits value fits = ground arith

not_least :
    (value : ℕ)
    → value ≢ 2 ^ 63
    → (if value == 2 ^ 63 then fault else ok (magnitude value)) ≡ ok (magnitude value)
not_least value least = ground arith

pub bind_to {ℓ κ} :
    {A : Type ℓ} {B : Type κ} {r : Run A} {a : A} (k : A → Run B) {t : Run B}
    → r ≡ ok a
    → k a ≡ t
    → (r >>= k) ≡ t
bind_to k e h = ap (λ q. q >>= k) e ∙ h

module _ {ℓ} {S : Type ℓ} (putchar : ℕ → S → Run S) where
  print-when :
      (b : Bool) (c width count : ℕ) (s : S)
      → (if b then pad putchar c width count s else ok s)
        ≡ print putchar (if b then replicate (width - count) c else []) s
  unfolding print
  print-when true c width count s = pad-replicate putchar c width count s
  print-when false c width count s = refl

  print-sign_cases :
      (neg plus space : Bool) (s : S)
      → (if neg
          then putchar 45 s
          else if plus
          then putchar 43 s
          else if space
          then putchar 32 s
          else ok s)
        ≡ print putchar
            (if neg then 45 ∷ [] else if plus then 43 ∷ [] else if space then 32 ∷ [] else [])
            s
  unfolding print
  print-sign_cases true plus space s = sym (bind_ok _)
  print-sign_cases false true space s = sym (bind_ok _)
  print-sign_cases false false true s = sym (bind_ok _)
  print-sign_cases false false false s = refl

  print-sign :
      (neg : Bool) (fl : Flags) (s : S)
      → (if neg
          then putchar 45 s
          else if fl.plus
          then putchar 43 s
          else if fl.space
          then putchar 32 s
          else ok s)
        ≡ print putchar (sign neg fl) s
  unfolding print
  print-sign neg fl s = print-sign_cases neg fl.plus fl.space s

  pub print_uint_run :
      (value base width : ℕ) (precision : Option ℕ) (fl : Flags) (upper : Bool) (buf : List ℕ)
      (s : S)
      → uint_digits upper base value precision ≡ ok buf
      → print_uint putchar value base width precision fl upper s
        ≡ print putchar (uint_text buf base width precision fl upper) s
  print_uint_run value base width precision fl upper buf s run =
      print_uint_printed putchar value base width precision fl upper s ∙ bind_to _ run refl

  pub print_int_run :
      (value width : ℕ) (precision : Option ℕ) (fl : Flags) (buf : List ℕ) (s : S)
      → value ≢ 2 ^ 63
      → uint_digits false 10 (magnitude value) precision ≡ ok buf
      → print_int putchar value width precision fl s
        ≡ print putchar (int_text buf (leb (2 ^ 63) value) width precision fl) s
  unfolding print_int
  print_int_run value width precision fl buf s least run = bind_to _ (not_least value least) (
      bind_to _ (count_digits-uint_digits (magnitude value) precision buf run) (
        then_print putchar _ _ s (print-when _ 32 width _ s) (λ s1.
          then_print putchar _ _ s1 (print-sign (leb (2 ^ 63) value) fl s1) (λ s2.
            then_print putchar _ _ s2 (print-when _ 48 width _ s2) (λ s3.
              then_print putchar _ _ s3
                (print_uint_run (magnitude value) 10 0 precision no_flags false buf s3 run)
                (λ s4. print-after putchar fl.left width _ s4))))))

  pub print_int_printed :
      (value width : ℕ) (precision : Option ℕ) (fl : Flags) (s : S)
      → value < 2 ^ 64
      → value ≢ 2 ^ 63
      → (buf : List ℕ) × ((value_of 10 0 buf ≡ magnitude value)
          × (print_int putchar value width precision fl s
              ≡ print putchar (int_text buf (leb (2 ^ 63) value) width precision fl) s))
  print_int_printed value width precision fl s fits least =
      let (buf, (run, (says, fit))) =
        uint_digits-value_of false 10 (magnitude value) precision decimal
          (magnitude_fits value fits) in
      (buf, (says, print_int_run value width precision fl buf s least run))
