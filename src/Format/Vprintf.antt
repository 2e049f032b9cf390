-- ===== src/Format/Vprintf.antt =====
-- lib/sprintf.c and lib/console.c: the loop over a format. `memory` is what `%s` reads.
use neko_os_c.Prelude.{
  ℕ, zero, suc, ◌+◌, true, false, ◌||◌, List, [], ◌∷◌, ◌==◌, if◌then◌else◌, u8, u64, length, get_or,
  Run, ok, out_of_fuel, fault, ◌>>=◌,
}
use neko_os_c.Format.Parse.{Spec, Input, input, peek, next_arg, parse_spec}
use neko_os_c.Format.Print.{
  signed_arg, print_char, print_str, print_int, print_uint, print_unsigned,
}

-- What a conversion leaves: the slots behind the one it reads, and the output.
abbrev pub no_arg {ℓ} : {S : Type ℓ} → Input → Run S → Run (List ℕ × S)
no_arg i r = r >>= λ s. ok (i.args, s)

abbrev pub with_arg {ℓ} : {S : Type ℓ} → Input → (ℕ → Run S) → Run (List ℕ × S)
with_arg i f = next_arg i >>= λ (a, i'). f a >>= λ s. ok (i'.args, s)

-- The characters that `%s` reads: those at the pointer, or of "(null)".
abbrev pub string_at : (ℕ → ℕ) → ℕ → (ℕ → ℕ)
string_at memory a i =
    if a == 0 then get_or (40 ∷ 110 ∷ 117 ∷ 108 ∷ 108 ∷ 41 ∷ []) i 0 else memory (u64 (a + i))

module _ {ℓ} {S : Type ℓ} (putchar : ℕ → S → Run S) where
  -- The switch on the conversion character; the slots that are left, and the output.
  unfoldable pub convert : (ℕ → ℕ) → Spec → Input → S → Run (List ℕ × S)
  convert memory sp i s =
      let c = peek i.at in
      if c == 99
      then with_arg i (λ a. print_char putchar (u8 a) sp s)
      else if c == 115
      then with_arg i (λ a. print_str putchar (string_at memory (u64 a)) sp s)
      else if c == 100 || c == 105
      then with_arg i
          (λ a. print_int putchar (signed_arg sp.modifier a) sp.width sp.precision sp.flags s)
      else if c == 117 || (c == 111 || (c == 120 || c == 88))
      then with_arg i (λ a. print_unsigned putchar c a sp s)
      else if c == 112
      then with_arg i (λ a.
        print_uint putchar (u64 a) 16 sp.width sp.precision (record sp.flags { alternate = true })
          false s)
      else if c == 37
      then no_arg i (putchar 37 s)
      else no_arg i (putchar 37 s >>= λ s'. if c == 0 then ok s' else putchar c s')

  -- The loop over the format. Behind a conversion that ends at the terminator, `p++` leaves the
  -- string, which is a fault.
  unfoldable pub vprintf_loop : ℕ → (ℕ → ℕ) → (p args : List ℕ) → S → Run S
  vprintf_loop zero memory p args s = out_of_fuel
  vprintf_loop (suc f) memory [] args s = ok s
  vprintf_loop (suc f) memory (c ∷ p) args s = elim (c == 37) [
    | false ↦ putchar c s >>= vprintf_loop f memory p args
    | true ↦ parse_spec (input p args) >>= λ (sp, i). convert memory sp i s >>= λ (args', s').
        elim i.at [ [] ↦ fault | c' ∷ q ↦ vprintf_loop f memory q args' s' ]
  ]

  -- One round for each character of the format and one for its end.
  unfoldable pub vprintf : (ℕ → ℕ) → (fmt args : List ℕ) → S → Run S
  vprintf memory fmt args s = vprintf_loop (suc (length fmt)) memory fmt args s
