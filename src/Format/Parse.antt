-- ===== src/Format/Parse.antt =====
-- lib/sprintf.c and lib/console.c: the conversion specifications of a format. A format is the list of
-- its characters before the terminator, which is read as 0.
use neko_os_c.Prelude.{
  ℕ, ◌+◌, ◌-◌, ◌*◌, ◌^◌, Bool, true, false, ◌&&◌, Option, none, some, List, [], ◌∷◌, ◌==◌, ltb, leb,
  if◌then◌else◌, u32, drop, Run, ok, fault, ◌>>=◌,
}

-- The bits of `flags`: '#', '-', '0', '+' and ' '.
pub record Flags : Type 0 where
  pub alternate : Bool
  pub left : Bool
  pub zeros : Bool
  pub plus : Bool
  pub space : Bool

pub data Width : Type 0 where
  len_default len_h len_hh len_l len_ll len_z len_j len_t : Width

-- `precision` is `none` for a negative one. `width` is never negative.
pub record Spec : Type 0 where
  pub flags : Flags
  pub width : ℕ
  pub precision : Option ℕ
  pub modifier : Width

-- What is left of the format, and the slots that va_arg reads, each of 64 bits.
pub record Input : Type 0 where
  pub at : List ℕ
  pub args : List ℕ

abbrev pub input : List ℕ → List ℕ → Input
input p args = record { at = p; args = args }

abbrev pub no_flags : Flags
no_flags = record { alternate = false; left = false; zeros = false; plus = false; space = false }

abbrev pub start_spec : Spec
start_spec = record { flags = no_flags; width = 0; precision = none; modifier = len_default }

-- `*p`.
abbrev pub peek : List ℕ → ℕ
peek [] = 0
peek (c ∷ p) = c

-- `p++` on a character that is not the terminator.
abbrev pub skip : Input → Input
skip i = record i { at = drop 1 i.at }

unfoldable pub next_arg : Input → Run (ℕ × Input)
next_arg i = elim i.args [ [] ↦ fault | a ∷ args ↦ ok (a, record i { args = args }) ]

unfoldable pub add_flag : ℕ → Flags → Option Flags
add_flag c fl =
    if c == 35
    then some (record fl { alternate = true })
    else if c == 45
    then some (record fl { left = true })
    else if c == 48
    then some (record fl { zeros = true })
    else if c == 43
    then some (record fl { plus = true })
    else if c == 32
    then some (record fl { space = true })
    else none

unfoldable pub parse_flags : Flags → List ℕ → Flags × List ℕ
parse_flags fl [] = (fl, [])
parse_flags fl (c ∷ p) = elim (add_flag c fl) [ some fl' ↦ parse_flags fl' p | none ↦ (fl, c ∷ p) ]

abbrev pub is_digit : ℕ → Bool
is_digit c = leb 48 c && leb c 57

-- The decimal number at `p`; C leaves the overflow of an int undefined.
unfoldable pub parse_number : ℕ → List ℕ → Run (ℕ × List ℕ)
parse_number n [] = ok (n, [])
parse_number n (c ∷ p) = elim (is_digit c) [
  | true ↦ elim (ltb (n * 10 + (c - 48)) (2 ^ 31)) [
    | true ↦ parse_number (n * 10 + (c - 48)) p
    | false ↦ fault
  ]
  | false ↦ ok (n, c ∷ p)
]

-- `va_arg(args, int)` is the low half of a slot, negative from 2 ^ 31 on; the negation of the least
-- int is undefined.
unfoldable pub parse_width : Spec → Input → Run (Spec × Input)
unfolding parse_number next_arg
parse_width sp i =
    if peek i.at == 42
    then (next_arg i >>= λ (a, i').
        if ltb (u32 a) (2 ^ 31)
        then ok (record sp { width = u32 a }, skip i')
        else if u32 a == 2 ^ 31
        then fault
        else ok (
          record sp { flags = record sp.flags { left = true }; width = 2 ^ 32 - u32 a },
          skip i',
        ))
    else (parse_number 0 i.at >>= λ (n, p). ok (record sp { width = n }, record i { at = p }))

unfoldable pub parse_precision : Spec → Input → Run (Spec × Input)
unfolding parse_number next_arg
parse_precision sp i =
    if peek i.at == 46
    then (if peek (skip i).at == 42
        then (next_arg (skip i) >>= λ (a, i'). ok (
          record sp { precision = if ltb (u32 a) (2 ^ 31) then some (u32 a) else none },
          skip i',
        ))
        else (parse_number 0 (skip i).at >>= λ (n, p).
            ok (record sp { precision = some n }, record i { at = p })))
    else ok (sp, i)

unfoldable pub parse_modifier : List ℕ → Width × List ℕ
parse_modifier p =
    if peek p == 104
    then (if peek (drop 1 p) == 104 then (len_hh, drop 2 p) else (len_h, drop 1 p))
    else if peek p == 108
    then (if peek (drop 1 p) == 108 then (len_ll, drop 2 p) else (len_l, drop 1 p))
    else if peek p == 122
    then (len_z, drop 1 p)
    else if peek p == 106
    then (len_j, drop 1 p)
    else if peek p == 116
    then (len_t, drop 1 p)
    else (len_default, p)

-- From the character behind '%' to the conversion character.
unfoldable pub parse_spec : Input → Run (Spec × Input)
unfolding parse_flags add_flag parse_width parse_precision parse_modifier
parse_spec i =
    let (fl, p) = parse_flags no_flags i.at in
    parse_width (record start_spec { flags = fl }) (record i { at = p }) >>= λ (sp, i1).
    parse_precision sp i1 >>= λ (sp', i2).
    let (m, q) = parse_modifier i2.at in ok (record sp' { modifier = m }, record i2 { at = q })
