-- ===== src/Console/Witness.antt =====
-- lib/console.c: a console of two rows of three characters.
use neko_os_c.Prelude.{◌≡◌, refl, none, true, [], ◌∷◌, ok, arith}
use neko_os_c.Console.{Console, console_putchar, cvprintf}
use neko_os_c.Console.Grid.{IsGrid}
use neko_os_c.Console.Typed.{Typed, console_putchar-Typed}
use neko_os_c.Console.Output.{AllTyped, cvprintf-AllTyped}
use neko_os_c.Format.Parse.{parse_spec, next_arg}
use neko_os_c.Format.Print.{uint_digits, fill_digits}

abbrev console : Console
console = record {
  initialized = true;
  cursor_x = 2;
  cursor_y = 1;
  fg_color = 0xFFFFFF;
  bg_color = 0;
  cols = 3;
  rows = 2;
  char_w = 8;
  char_h = 16;
  has_buffer = true;
  buffer = λ i. record { c = 32; fg = 0xFFFFFF; bg = 0 };
  font = record { data_at = λ a. 0; glyphs = none; width = 8; height = 16; glyph_size = 16 };
  fb = record { addr = 0x1000; width = 24; height = 32; pitch = 96; bpp = 32; bytes = λ a. 0 };
}

console-IsGrid : IsGrid console
console-IsGrid = record {
  in_row = omega arith;
  in_column = omega arith;
  size_fits = omega arith;
  rows_fit = omega arith;
  cols_fit = omega arith;
  allocated = refl;
}

console_putchar-Typed_example :
    (k' : Console) × ((console_putchar 78 console ≡ ok k') × (IsGrid k' × Typed 78 console k'))
console_putchar-Typed_example = console_putchar-Typed 78 console console-IsGrid

cvprintf-AllTyped_example :
    (k' : Console) × ((cvprintf (λ a. 0) (37 ∷ 117 ∷ 10 ∷ []) (42 ∷ []) console ≡ ok k')
      × (IsGrid k' × AllTyped (52 ∷ 50 ∷ 10 ∷ []) console k'))
cvprintf-AllTyped_example =
    cvprintf-AllTyped (λ a. 0) (37 ∷ 117 ∷ 10 ∷ []) (42 ∷ []) (52 ∷ 50 ∷ 10 ∷ []) console
      console-IsGrid (unfold parse_spec next_arg uint_digits fill_digits in refl)
