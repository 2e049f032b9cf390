-- ===== src/Format/Refine.antt =====
-- lib/sprintf.c and lib/console.c: the text of a format and its arguments, which every device gets.
use neko_os_c.Prelude.{
  bind_cong, bind_ok, ℕ, zero, suc, ◌^◌, ◌≡◌, ◌≢◌, refl, sym, ◌∙◌, Bool, true, false, ◌||◌, Option,
  List, [], ◌∷◌, ◌++◌, ◌==◌, leb, if◌then◌else◌, Run, ok, panic, out_of_fuel, fault, ◌>>=◌, arith,
  u8, u64,
}
use neko_os_c.Format.Parse.{Flags, Spec, Input, peek, parse_spec}
use neko_os_c.Format.Print.{
  print, print_uint, print_int, print_char, print_str, print_from, print_unsigned, uint_digits,
  str_length, unsigned_arg, signed_arg,
}
use neko_os_c.Format.Vprintf.{with_arg, no_arg, string_at}
use neko_os_c.Format.Text.{
  before, after, uint_text, then_print, print-after, print-before, print_uint_printed,
}
use neko_os_c.Format.Int.{int_text, magnitude, print_int_run}

abbrev pub uint_run : (value base width : ℕ) → Option ℕ → Flags → Bool → Run (List ℕ)
uint_run value base width precision fl upper = uint_digits upper base value precision >>= λ buf.
    ok (uint_text buf base width precision fl upper)

abbrev pub int_run : (value width : ℕ) → Option ℕ → Flags → Run (List ℕ)
int_run value width precision fl =
    if value == 2 ^ 63
    then fault
    else (uint_digits false 10 (magnitude value) precision >>= λ buf.
        ok (int_text buf (leb (2 ^ 63) value) width precision fl))

-- The `n` characters of a string from the index `i` on.
abbrev pub chars : ℕ → (ℕ → ℕ) → ℕ → List ℕ
chars zero str i = []
chars (suc n) str i = str i ∷ chars n str (suc i)

abbrev pub char_text : ℕ → Spec → List ℕ
char_text c sp = before sp.flags.left 32 sp.width 1 ++ ((c ∷ []) ++ after sp.flags.left sp.width 1)

abbrev pub str_run : (ℕ → ℕ) → Spec → Run (List ℕ)
str_run str sp = str_length (2 ^ 31) str sp.precision 0 >>= λ len.
    ok (
      before sp.flags.left 32 sp.width len ++ (chars len str 0 ++ after sp.flags.left sp.width len))

abbrev pub unsigned_run : (c a : ℕ) → Spec → Run (List ℕ)
unsigned_run c a sp =
    uint_run (unsigned_arg sp.modifier a)
      (if c == 111 then 8 else if c == 120 || c == 88 then 16 else 10) sp.width sp.precision
      sp.flags (c == 88)

-- The slots that a conversion leaves, and its text.
abbrev pub convert_text : (ℕ → ℕ) → Spec → Input → Run (List ℕ × List ℕ)
convert_text memory sp i =
    let c = peek i.at in
    if c == 99
    then with_arg i (λ a. ok (char_text (u8 a) sp))
    else if c == 115
    then with_arg i (λ a. str_run (string_at memory (u64 a)) sp)
    else if c == 100 || c == 105
    then with_arg i (λ a. int_run (signed_arg sp.modifier a) sp.width sp.precision sp.flags)
    else if c == 117 || (c == 111 || (c == 120 || c == 88))
    then with_arg i (λ a. unsigned_run c a sp)
    else if c == 112
    then with_arg i (λ a.
      uint_run (u64 a) 16 sp.width sp.precision (record sp.flags { alternate = true }) false)
    else if c == 37
    then no_arg i (ok (37 ∷ []))
    else no_arg i (ok (37 ∷ (if c == 0 then [] else c ∷ [])))

abbrev pub text_loop : ℕ → (ℕ → ℕ) → (p args : List ℕ) → Run (List ℕ)
text_loop zero memory p args = out_of_fuel
text_loop (suc f) memory [] args = ok []
text_loop (suc f) memory (c ∷ p) args = elim (c == 37) [
  | false ↦ text_loop f memory p args >>= λ t. ok (c ∷ t)
  | true ↦ parse_spec (record { at = p; args = args }) >>= λ (sp, i).
      convert_text memory sp i >>= λ (args', t). elim i.at [
        | [] ↦ fault
        | c' ∷ q ↦ text_loop f memory q args' >>= λ t'. ok (t ++ t')
      ]
]

module _ {S : Type 0} (putchar : ℕ → S → Run S) where
  -- `k` prints the text of `r`, if `r` has one.
  abbrev pub Printed : Run (List ℕ) → (S → Run S) → Type 0
  Printed (ok t) k = (s : S) → k s ≡ print putchar t s
  Printed panic k = Unit {0}
  Printed out_of_fuel k = Unit {0}
  Printed fault k = Unit {0}

  Printed-bind :
      {A : Type 0} (r : Run A) (f : A → List ℕ) (k : A → S → Run S)
      → ((a : A) (s : S) → k a s ≡ print putchar (f a) s)
      → Printed (r >>= λ a. ok (f a)) (λ s. r >>= λ a. k a s)
  Printed-bind (ok a) f k e = e a
  Printed-bind panic f k e = tt
  Printed-bind out_of_fuel f k e = tt
  Printed-bind fault f k e = tt

  Printed-same :
      (r : Run (List ℕ)) (k k' : S → Run S) → ((s : S) → k s ≡ k' s) → Printed r k' → Printed r k
  Printed-same (ok t) k k' e h = λ s. e s ∙ h s
  Printed-same panic k k' e h = tt
  Printed-same out_of_fuel k k' e h = tt
  Printed-same fault k k' e h = tt

  pub print_uint-Printed :
      (value base width : ℕ) (precision : Option ℕ) (fl : Flags) (upper : Bool)
      → Printed
          (uint_run value base width precision fl upper)
          (print_uint putchar value base width precision fl upper)
  print_uint-Printed value base width precision fl upper =
      Printed-same (uint_run value base width precision fl upper) _ _
        (print_uint_printed putchar value base width precision fl upper)
        (Printed-bind (uint_digits upper base value precision) _ _ (λ buf s. refl))

  pub print_int-Printed :
      (value width : ℕ) (precision : Option ℕ) (fl : Flags)
      → Printed (int_run value width precision fl) (print_int putchar value width precision fl)
  print_int-Printed value width precision fl =
      go (value == 2 ^ 63) refl (uint_digits false 10 (magnitude value) precision) refl
    where
      not_least : (value == 2 ^ 63) ≡ false → value ≢ 2 ^ 63
      not_least e q = ground arith

      go :
          (b : Bool)
          → (value == 2 ^ 63) ≡ b
          → (r : Run (List ℕ)) → uint_digits false 10 (magnitude value) precision ≡ r
          → Printed
              (if b
                then fault
                else (r >>= λ buf. ok (int_text buf (leb (2 ^ 63) value) width precision fl)))
              (print_int putchar value width precision fl)
      go true e r q = tt
      go false e (ok buf) q =
          λ s. print_int_run putchar value width precision fl buf s (not_least e) q
      go false e panic q = tt
      go false e out_of_fuel q = tt
      go false e fault q = tt

  print_from-chars :
      (n : ℕ) (str : ℕ → ℕ) (i : ℕ) (s : S)
      → print_from putchar n str i s ≡ print putchar (chars n str i) s
  unfolding print_from print
  print_from-chars zero str i s = refl
  print_from-chars (suc n) str i s = bind_cong (putchar (str i) s) (print_from-chars n str (suc i))

  pub print_one : (c : ℕ) (s : S) → putchar c s ≡ print putchar (c ∷ []) s
  unfolding print
  print_one c s = sym (bind_ok (putchar c s))

  pub print_char-Printed :
      (c : ℕ) (sp : Spec) → Printed (ok (char_text c sp)) (print_char putchar c sp)
  unfolding print_char
  print_char-Printed c sp s =
      then_print putchar _ _ s (print-before putchar sp.flags.left 32 sp.width 1 s) (λ s1.
        then_print putchar (c ∷ []) _ s1 (print_one c s1)
          (λ s2. print-after putchar sp.flags.left sp.width 1 s2))

  pub print_str-Printed :
      (str : ℕ → ℕ) (sp : Spec) → Printed (str_run str sp) (print_str putchar str sp)
  unfolding print_str
  print_str-Printed str sp = Printed-bind (str_length (2 ^ 31) str sp.precision 0) _ _ (λ len s.
      then_print putchar _ _ s (print-before putchar sp.flags.left 32 sp.width len s) (λ s1.
        then_print putchar _ _ s1 (print_from-chars len str 0 s1)
          (λ s2. print-after putchar sp.flags.left sp.width len s2)))

  pub print_unsigned-Printed :
      (c a : ℕ) (sp : Spec) → Printed (unsigned_run c a sp) (print_unsigned putchar c a sp)
  unfolding print_unsigned
  print_unsigned-Printed c a sp =
      print_uint-Printed (unsigned_arg sp.modifier a)
        (if c == 111 then 8 else if c == 120 || c == 88 then 16 else 10) sp.width sp.precision
        sp.flags (c == 88)
