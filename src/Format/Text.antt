-- ===== src/Format/Text.antt =====
-- lib/sprintf.c and lib/console.c: the characters that each conversion prints, as lists.
use neko_os_c.Prelude.{
  bind_assoc, bind_cong, bind_ok, ℕ, zero, suc, ◌+◌, ◌-◌, ◌≡◌, refl, ap, sym, ◌∙◌, Bool, true,
  false, Option, List, [], ◌∷◌, ◌++◌, ◌==◌, ltb, if◌then◌else◌, length, Run, ok, ◌>>=◌, replicate,
  arith, Bool-cases, inl, inr, ltb→lt,
}
use neko_os_c.Format.Parse.{Flags}
use neko_os_c.Format.Print.{pad, print, print_uint, uint_digits, precision_or, prefix_length}

-- The padding in front of a field, and behind it.
abbrev pub before : Bool → (c width count : ℕ) → List ℕ
before left c width count = if left then [] else replicate (width - count) c

abbrev pub after : Bool → (width count : ℕ) → List ℕ
after left width count = if left then replicate (width - count) 32 else []

abbrev pub prefix : Bool → ℕ → Bool → List ℕ
prefix alternate base upper =
    if alternate
    then (if base == 16
        then 48 ∷ (if upper then 88 else 120) ∷ []
        else if base == 8
        then 48 ∷ []
        else [])
    else []

-- A number with the digits `buf`.
abbrev pub uint_text : List ℕ → (base width : ℕ) → Option ℕ → Flags → Bool → List ℕ
uint_text buf base width precision fl upper =
    let wanted = precision_or precision (length buf) in
    let count = wanted + prefix_length fl.alternate base in
    before fl.left (if fl.zeros then 48 else 32) width count
    ++ (prefix fl.alternate base upper
        ++ (replicate (wanted - length buf) 48 ++ (buf ++ after fl.left width count)))

nothing_less : (n : ℕ) → 0 ≡ 0 - n
nothing_less n = omega arith

module _ {ℓ} {S : Type ℓ} (putchar : ℕ → S → Run S) where
  pub pad-replicate :
      (c width count : ℕ) (s : S)
      → pad putchar c width count s ≡ print putchar (replicate (width - count) c) s
  unfolding pad print
  pad-replicate c zero count s = ap (λ n. print putchar (replicate n c) s) (nothing_less count)
  pad-replicate c (suc w) count s = elim (Bool-cases (ltb count (suc w))) [
    | inl less ↦ rw (pad, less, one_more less) (bind_cong (putchar c s) (pad-replicate c w count))
    | inr more ↦ rw (pad, more, none_more more) refl
  ]
    where
      one_more : ltb count (suc w) ≡ true → suc w - count ≡ suc (w - count)
      one_more less = omega (arith, ltb→lt count (suc w) less)

      none_more : ltb count (suc w) ≡ false → suc w - count ≡ 0
      none_more more = ground arith

  pub print-append :
      (xs ys : List ℕ) (s : S)
      → print putchar (xs ++ ys) s ≡ (print putchar xs s >>= print putchar ys)
  unfolding print
  print-append [] ys s = refl
  print-append (x ∷ xs) ys s =
      bind_cong (putchar x s) (print-append xs ys) ∙ sym (bind_assoc (putchar x s) _ _)

  -- A step that prints `xs` before steps that print `ys`.
  pub then_print :
      (xs ys : List ℕ) (s : S) {r : Run S} {g : S → Run S}
      → r ≡ print putchar xs s
      → ((t : S) → g t ≡ print putchar ys t)
      → (r >>= g) ≡ print putchar (xs ++ ys) s
  then_print xs ys s {r = r} first rest =
      bind_cong r rest ∙ ap (λ q. q >>= print putchar ys) first ∙ sym (print-append xs ys s)

  pub print-before :
      (left : Bool) (c width count : ℕ) (s : S)
      → (if left then ok s else pad putchar c width count s)
        ≡ print putchar (before left c width count) s
  unfolding print
  print-before true c width count s = refl
  print-before false c width count s = pad-replicate c width count s

  pub print-after :
      (left : Bool) (width count : ℕ) (s : S)
      → (if left then pad putchar 32 width count s else ok s)
        ≡ print putchar (after left width count) s
  unfolding print
  print-after true width count s = pad-replicate 32 width count s
  print-after false width count s = refl

  print-prefix_cases :
      (b16 b8 : Bool) (c : ℕ) (s : S)
      → (if b16 then print putchar (48 ∷ c ∷ []) s else if b8 then putchar 48 s else ok s)
        ≡ print putchar (if b16 then 48 ∷ c ∷ [] else if b8 then 48 ∷ [] else []) s
  unfolding print
  print-prefix_cases true b8 c s = refl
  print-prefix_cases false true c s = sym (bind_ok (putchar 48 s))
  print-prefix_cases false false c s = refl

  print-prefix :
      (alternate : Bool) (base : ℕ) (upper : Bool) (s : S)
      → (if alternate
          then (if base == 16
              then print putchar (48 ∷ (if upper then 88 else 120) ∷ []) s
              else if base == 8
              then putchar 48 s
              else ok s)
          else ok s)
        ≡ print putchar (prefix alternate base upper) s
  unfolding print
  print-prefix false base upper s = refl
  print-prefix true base upper s = print-prefix_cases (base == 16) (base == 8) _ s

  pub print_uint_printed :
      (value base width : ℕ) (precision : Option ℕ) (fl : Flags) (upper : Bool) (s : S)
      → print_uint putchar value base width precision fl upper s ≡ (
          uint_digits upper base value precision >>= λ buf.
          print putchar (uint_text buf base width precision fl upper) s)
  unfolding print_uint
  print_uint_printed value base width precision fl upper s =
      bind_cong (uint_digits upper base value precision) (λ buf.
        then_print _ _ _ (print-before fl.left _ width _ s) (λ s1.
          then_print _ _ _ (print-prefix fl.alternate base upper s1) (λ s2.
            then_print _ _ _ (pad-replicate 48 _ (length buf) s2)
              (λ s3. then_print _ _ _ refl (λ s4. print-after fl.left width _ s4)))))
