-- ===== src/Format/Device.antt =====
-- lib/sprintf.c and lib/console.c: the loop over a format prints its text, on every device.
use neko_os_c.Prelude.{
  bind_assoc, bind_cong, ℕ, zero, suc, ◌≡◌, refl, ap, sym, ◌∙◌, Bool, true, false, ◌||◌, List, [],
  ◌∷◌, ◌++◌, ◌==◌, if◌then◌else◌, length, Run, ok, panic, out_of_fuel, fault, ◌>>=◌, u8, u64,
}
use mathlib.Core.Path.{subst}
use neko_os_c.Format.Parse.{Spec, Input, peek, parse_spec, next_arg}
use neko_os_c.Format.Print.{print, print_char, signed_arg}
use neko_os_c.Format.Vprintf.{with_arg, no_arg, string_at, convert, vprintf_loop, vprintf}
use neko_os_c.Format.Text.{print-append}
use neko_os_c.Format.Refine.{
  char_text, convert_text, text_loop, Printed, print_uint-Printed, print_int-Printed,
  print_char-Printed, print_str-Printed, print_unsigned-Printed, print_one,
}

module _ {S : Type 0} (putchar : ℕ → S → Run S) where
  -- `k` leaves the slots of `r` and prints its text, if `r` has one.
  abbrev Converted : Run (List ℕ × List ℕ) → (S → Run (List ℕ × S)) → Type 0
  Converted (ok (args, t)) k = (s : S) → k s ≡ (print putchar t s >>= λ s'. ok (args, s'))
  Converted panic k = Unit {0}
  Converted out_of_fuel k = Unit {0}
  Converted fault k = Unit {0}

  Converted-keep :
      (args : List ℕ) (r : Run (List ℕ)) (k : S → Run S)
      → Printed putchar r k
      → Converted (r >>= λ t. ok (args, t)) (λ s. k s >>= λ s'. ok (args, s'))
  Converted-keep args (ok t) k e = λ s. ap (λ q. q >>= λ s'. ok (args, s')) (e s)
  Converted-keep args panic k e = tt
  Converted-keep args out_of_fuel k e = tt
  Converted-keep args fault k e = tt

  Converted-with_arg :
      (i : Input) (f : ℕ → Run (List ℕ)) (k : ℕ → S → Run S)
      → ((a : ℕ) → Printed putchar (f a) (k a))
      → Converted (with_arg i f) (λ s. with_arg i (λ a. k a s))
  Converted-with_arg i f k e = go (next_arg i)
    where
      go :
          (r : Run (ℕ × Input))
          → Converted
              (r >>= λ (a, i'). f a >>= λ t. ok (i'.args, t))
              (λ s. r >>= λ (a, i'). k a s >>= λ s'. ok (i'.args, s'))
      go (ok (a, i')) = Converted-keep i'.args (f a) (k a) (e a)
      go panic = tt
      go out_of_fuel = tt
      go fault = tt

  Converted-if :
      (b : Bool) (r r' : Run (List ℕ × List ℕ)) (k k' : S → Run (List ℕ × S))
      → Converted r k
      → Converted r' k'
      → Converted (if b then r else r') (λ s. if b then k s else k' s)
  Converted-if true r r' k k' h h' = h
  Converted-if false r r' k k' h h' = h'

  unknown :
      (c : ℕ) (b : Bool)
      → Printed putchar
          (ok (37 ∷ (if b then [] else c ∷ [])))
          (λ s. putchar 37 s >>= λ s'. if b then ok s' else putchar c s')
  unfolding print
  unknown c true s = refl
  unknown c false s = bind_cong (putchar 37 s) (print_one putchar c)

  if_percent :
      (i : Input)
      → Converted
          (if peek i.at == 37
            then no_arg i (ok (37 ∷ []))
            else no_arg i (ok (37 ∷ (if peek i.at == 0 then [] else peek i.at ∷ []))))
          (λ s.
            if peek i.at == 37
            then no_arg i (putchar 37 s)
            else no_arg i
                (putchar 37 s >>= λ s'. if peek i.at == 0 then ok s' else putchar (peek i.at) s'))
  if_percent i =
      Converted-if (peek i.at == 37) (ok (i.args, 37 ∷ []))
        (ok (i.args, 37 ∷ (if peek i.at == 0 then [] else peek i.at ∷ [])))
        (λ s. no_arg i (putchar 37 s))
        (λ s.
          no_arg i
            (putchar 37 s >>= λ s'. if peek i.at == 0 then ok s' else putchar (peek i.at) s'))
        (Converted-keep i.args (ok (37 ∷ [])) (putchar 37) (print_one putchar 37))
        (Converted-keep i.args (ok (37 ∷ (if peek i.at == 0 then [] else peek i.at ∷ []))) _
          (unknown (peek i.at) (peek i.at == 0)))

  convert-Converted :
      (memory : ℕ → ℕ) (sp : Spec) (i : Input)
      → Converted (convert_text memory sp i) (convert putchar memory sp i)
  unfolding convert
  convert-Converted memory sp i =
      let c = peek i.at in
      Converted-if (c == 99) _ _ _ _
        (Converted-with_arg i (λ a. ok (char_text (u8 a) sp)) (λ a. print_char putchar (u8 a) sp)
          (λ a. print_char-Printed putchar (u8 a) sp))
        (Converted-if (c == 115) _ _ _ _
          (Converted-with_arg i _ _ (λ a. print_str-Printed putchar (string_at memory (u64 a)) sp))
          (Converted-if (c == 100 || c == 105) _ _ _ _
            (Converted-with_arg i _ _ (λ a.
              print_int-Printed putchar (signed_arg sp.modifier a) sp.width sp.precision sp.flags))
            (Converted-if (c == 117 || (c == 111 || (c == 120 || c == 88))) _ _ _ _
              (Converted-with_arg i _ _ (λ a. print_unsigned-Printed putchar c a sp))
              (Converted-if (c == 112) _ _ _ _
                (Converted-with_arg i _ _ (λ a.
                  print_uint-Printed putchar (u64 a) 16 sp.width sp.precision
                    (record sp.flags { alternate = true }) false))
                (if_percent i)))))

  Printed-cons :
      (c : ℕ) (r : Run (List ℕ)) (k : S → Run S)
      → Printed putchar r k
      → Printed putchar (r >>= λ t. ok (c ∷ t)) (λ s. putchar c s >>= k)
  unfolding print
  Printed-cons c (ok t) k e = λ s. bind_cong (putchar c s) e
  Printed-cons c panic k e = tt
  Printed-cons c out_of_fuel k e = tt
  Printed-cons c fault k e = tt

  Printed-append :
      (t : List ℕ) (args : List ℕ) (r : Run (List ℕ)) (k : S → Run (List ℕ × S))
      (rest : List ℕ → S → Run S)
      → Converted (ok (args, t)) k
      → Printed putchar r (rest args)
      → Printed putchar (r >>= λ t'. ok (t ++ t')) (λ s. k s >>= λ (args', s'). rest args' s')
  Printed-append t args (ok t') k rest e h = λ s.
      ap (λ q. q >>= λ (args', s'). rest args' s') (e s)
      ∙ bind_assoc (print putchar t s) _ _
      ∙ bind_cong (print putchar t s) h
      ∙ sym (print-append putchar t t' s)
  Printed-append t args panic k rest e h = tt
  Printed-append t args out_of_fuel k rest e h = tt
  Printed-append t args fault k rest e h = tt

  Printed-elim :
      (b : Bool) (r r' : Run (List ℕ)) (k k' : S → Run S)
      → Printed putchar r k
      → Printed putchar r' k'
      → Printed putchar
          (elim b [ false ↦ r | true ↦ r' ])
          (λ s. elim b [ false ↦ k s | true ↦ k' s ])
  Printed-elim false r r' k k' h h' = h
  Printed-elim true r r' k k' h h' = h'

  print_none : (s : S) → ok s ≡ print putchar [] s
  unfolding print
  print_none s = refl

  module _ (f : ℕ) (memory : ℕ → ℕ)
      (rest : (p args : List ℕ)
        → Printed putchar (text_loop f memory p args) (vprintf_loop putchar f memory p args)) where
    converted :
        (q : List ℕ) (r : Run (List ℕ × List ℕ)) (k : S → Run (List ℕ × S))
        → Converted r k
        → Printed putchar
            (r >>= λ (args', t). elim q [
              | [] ↦ fault
              | c' ∷ q' ↦ text_loop f memory q' args' >>= λ t'. ok (t ++ t')
            ])
            (λ s. k s >>= λ (args', s'). elim q [
              | [] ↦ fault
              | c' ∷ q' ↦ vprintf_loop putchar f memory q' args' s'
            ])
    converted [] (ok (args', t)) k e = tt
    converted (c' ∷ q') (ok (args', t)) k e =
        Printed-append t args' (text_loop f memory q' args') k (vprintf_loop putchar f memory q') e
          (rest q' args')
    converted q panic k e = tt
    converted q out_of_fuel k e = tt
    converted q fault k e = tt

    specified :
        (r : Run (Spec × Input))
        → Printed putchar
            (r >>= λ (sp, i). convert_text memory sp i >>= λ (args', t). elim i.at [
              | [] ↦ fault
              | c' ∷ q' ↦ text_loop f memory q' args' >>= λ t'. ok (t ++ t')
            ])
            (λ s. r >>= λ (sp, i). convert putchar memory sp i s >>= λ (args', s'). elim i.at [
              | [] ↦ fault
              | c' ∷ q' ↦ vprintf_loop putchar f memory q' args' s'
            ])
    specified (ok (sp, i)) =
        converted i.at (convert_text memory sp i) (convert putchar memory sp i)
          (convert-Converted memory sp i)
    specified panic = tt
    specified out_of_fuel = tt
    specified fault = tt

  vprintf_loop-Printed :
      (f : ℕ) (memory : ℕ → ℕ) (p args : List ℕ)
      → Printed putchar (text_loop f memory p args) (vprintf_loop putchar f memory p args)
  unfolding vprintf_loop
  vprintf_loop-Printed zero memory p args = tt
  vprintf_loop-Printed (suc f) memory [] args = print_none
  vprintf_loop-Printed (suc f) memory (c ∷ p) args =
      Printed-elim (c == 37) _ _ _ _
        (Printed-cons c (text_loop f memory p args) _ (vprintf_loop-Printed f memory p args))
        (specified f memory (vprintf_loop-Printed f memory)
          (parse_spec (record { at = p; args = args })))

-- The text of a format with its arguments.
abbrev pub format_text : (ℕ → ℕ) → (fmt args : List ℕ) → Run (List ℕ)
format_text memory fmt args = text_loop (suc (length fmt)) memory fmt args

-- A format that has a text, for the arguments and the memory, is printed as that text, character by
-- character and in order, on every device.
pub vprintf-format_text :
    {S : Type 0} (putchar : ℕ → S → Run S) (memory : ℕ → ℕ) (fmt args t : List ℕ) (s : S)
    → format_text memory fmt args ≡ ok t
    → vprintf putchar memory fmt args s ≡ print putchar t s
unfolding vprintf
vprintf-format_text putchar memory fmt args t s e =
    subst (λ r. Printed putchar r (vprintf_loop putchar (suc (length fmt)) memory fmt args)) e
      (vprintf_loop-Printed putchar (suc (length fmt)) memory fmt args) s
