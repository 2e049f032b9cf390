-- ===== src/Format/Witness.antt =====
-- lib/sprintf.c and lib/console.c: formats printed on a device that keeps what it prints.
use neko_os_c.Prelude.{
  if◌then◌else◌, ◌==◌, ℕ, ◌≤◌, ◌≡◌, refl, true, false, none, List, [], ◌∷◌, length, Run, ok, arith,
  ◌∙◌,
}
use Prim.Native.Nat.{max}
use neko_os_c.Format.Parse.{Flags, no_flags, next_arg, parse_spec}
use neko_os_c.Format.Print.{print, print_uint, uint_digits, fill_digits, str_length, prefix_length}
use neko_os_c.Format.Vprintf.{vprintf}
use neko_os_c.Format.Text.{uint_text}
use neko_os_c.Format.Digits.{value_of, hexadecimal, uint_digits-value_of}
use neko_os_c.Format.Width.{needed, print_uint-uint_text}
use neko_os_c.Format.Device.{format_text, vprintf-format_text}

abbrev keep : ℕ → List ℕ → Run (List ℕ)
keep c s = ok (c ∷ s)

-- Memory that holds "ok" at the address 16.
abbrev memory : ℕ → ℕ
memory a = if a == 16 then 111 else if a == 17 then 107 else 0

abbrev zero_padded : Flags
zero_padded = record no_flags { zeros = true }

-- "id=%04x %s"
abbrev fmt : List ℕ
fmt = 105 ∷ 100 ∷ 61 ∷ 37 ∷ 48 ∷ 52 ∷ 120 ∷ 32 ∷ 37 ∷ 115 ∷ 10 ∷ []

-- "id=00ff ok"
abbrev text : List ℕ
text = 105 ∷ 100 ∷ 61 ∷ 48 ∷ 48 ∷ 102 ∷ 102 ∷ 32 ∷ 111 ∷ 107 ∷ 10 ∷ []

text_is : format_text memory fmt (255 ∷ 16 ∷ []) ≡ ok text
unfolding parse_spec next_arg uint_digits fill_digits str_length
text_is = refl

vprintf-format_text_example : vprintf keep memory fmt (255 ∷ 16 ∷ []) [] ≡ print keep text []
vprintf-format_text_example = vprintf-format_text keep memory fmt (255 ∷ 16 ∷ []) text [] text_is

uint_digits-value_of_example :
    (buf : List ℕ) × ((uint_digits false 16 48879 none ≡ ok buf)
      × ((value_of 16 0 buf ≡ 48879) × (length buf ≤ 64)))
uint_digits-value_of_example = uint_digits-value_of false 16 48879 none hexadecimal (omega arith)

print_uint-uint_text_example :
    (buf : List ℕ) × ((value_of 16 0 buf ≡ 255)
      × ((print_uint keep 255 16 8 none zero_padded false []
            ≡ print keep (uint_text buf 16 8 none zero_padded false) [])
          × (length (uint_text buf 16 8 none zero_padded false)
              ≡ max 8 (needed none (length buf) (prefix_length false 16)))))
print_uint-uint_text_example =
    print_uint-uint_text keep 255 16 8 none zero_padded false [] hexadecimal (omega arith)

-- `%#06x` pads with zeros in front of the prefix: "000x2a".
zeros_before_prefix :
    vprintf keep memory (37 ∷ 35 ∷ 48 ∷ 54 ∷ 120 ∷ 10 ∷ []) (42 ∷ []) []
    ≡ ok (10 ∷ 97 ∷ 50 ∷ 120 ∷ 48 ∷ 48 ∷ 48 ∷ [])
zeros_before_prefix =
    vprintf-format_text keep memory (37 ∷ 35 ∷ 48 ∷ 54 ∷ 120 ∷ 10 ∷ []) (42 ∷ [])
      (48 ∷ 48 ∷ 48 ∷ 120 ∷ 50 ∷ 97 ∷ 10 ∷ []) [] run
    ∙ (unfold print in refl)
  where
    run :
        format_text memory (37 ∷ 35 ∷ 48 ∷ 54 ∷ 120 ∷ 10 ∷ []) (42 ∷ [])
        ≡ ok (48 ∷ 48 ∷ 48 ∷ 120 ∷ 50 ∷ 97 ∷ 10 ∷ [])
    run = unfold parse_spec next_arg uint_digits fill_digits in refl
