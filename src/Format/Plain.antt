-- ===== src/Format/Plain.antt =====
-- lib/sprintf.c and lib/console.c: formats without a conversion, and a '%' at the end of a format.
use neko_os_c.Prelude.{
  bind_assoc, bind_cong, ℕ, suc, ◌≡◌, ◌≢◌, refl, sym, ◌∙◌, false, List, [], ◌∷◌, ◌++◌, ◌==◌, length,
  Run, ok, panic, out_of_fuel, fault, ◌>>=◌, arith,
}
use neko_os_c.Format.Parse.{parse_spec}
use neko_os_c.Format.Print.{print}
use neko_os_c.Format.Vprintf.{convert, vprintf_loop, vprintf}

-- No '%' among the characters.
abbrev pub Plain : List ℕ → Type 0
Plain [] = Unit {0}
Plain (c ∷ cs) = (c ≢ 37) × Plain cs

not_percent : (c : ℕ) → c ≢ 37 → (c == 37) ≡ false
not_percent c ne = ground arith

module _ {S : Type 0} (putchar : ℕ → S → Run S) (memory : ℕ → ℕ) where
  Plain-step :
      (f c : ℕ) (p args : List ℕ) (s : S)
      → c ≢ 37
      → vprintf_loop putchar (suc f) memory (c ∷ p) args s
        ≡ (putchar c s >>= vprintf_loop putchar f memory p args)
  unfolding vprintf_loop
  Plain-step f c p args s ne = rw (vprintf_loop, not_percent c ne) refl

  Plain-loop :
      (fmt args : List ℕ) (s : S)
      → Plain fmt
      → vprintf_loop putchar (suc (length fmt)) memory fmt args s ≡ print putchar fmt s
  unfolding print
  Plain-loop [] args s plain = unfold vprintf_loop in refl
  Plain-loop (c ∷ p) args s (ne, plain) =
      Plain-step (suc (length p)) c p args s ne
      ∙ bind_cong (putchar c s) (λ s'. Plain-loop p args s' plain)

  abbrev lose : Run (List ℕ × S) → Run S
  lose r = r >>= λ x. fault

  drop_result :
      (args : List ℕ) (r : Run S)
      → lose (r >>= (λ s. ok s) >>= λ s. ok (args, s)) ≡ (r >>= λ s. fault)
  drop_result args (ok s) = refl
  drop_result args panic = refl
  drop_result args out_of_fuel = refl
  drop_result args fault = refl

  percent_step :
      (f : ℕ) (args : List ℕ) (s : S)
      → vprintf_loop putchar (suc f) memory (37 ∷ []) args s ≡ (putchar 37 s >>= λ s'. fault)
  unfolding vprintf_loop parse_spec convert
  percent_step f args s = drop_result args (putchar 37 s)

  trailing_loop :
      (fmt args : List ℕ) (s : S)
      → Plain fmt
      → vprintf_loop putchar (suc (length (fmt ++ (37 ∷ [])))) memory (fmt ++ (37 ∷ [])) args s
        ≡ (print putchar fmt s >>= λ s1. putchar 37 s1 >>= λ s2. fault)
  unfolding print
  trailing_loop [] args s plain = percent_step _ args s
  trailing_loop (c ∷ p) args s (ne, plain) =
      Plain-step _ c (p ++ (37 ∷ [])) args s ne
      ∙ bind_cong (putchar c s) (λ s'. trailing_loop p args s' plain)
      ∙ sym (bind_assoc (putchar c s) _ _)

-- A format without '%' is printed as it stands.
pub vprintf-print :
    {S : Type 0} (putchar : ℕ → S → Run S) (memory : ℕ → ℕ) (fmt args : List ℕ) (s : S)
    → Plain fmt
    → vprintf putchar memory fmt args s ≡ print putchar fmt s
unfolding vprintf
vprintf-print putchar memory fmt args s plain = Plain-loop putchar memory fmt args s plain

-- A format that ends in its only '%' is printed with that '%', after which the loop reads behind the
-- terminator.
pub vprintf-fault :
    {S : Type 0} (putchar : ℕ → S → Run S) (memory : ℕ → ℕ) (fmt args : List ℕ) (s : S)
    → Plain fmt
    → vprintf putchar memory (fmt ++ (37 ∷ [])) args s
      ≡ (print putchar fmt s >>= λ s1. putchar 37 s1 >>= λ s2. fault)
unfolding vprintf
vprintf-fault putchar memory fmt args s plain = trailing_loop putchar memory fmt args s plain
