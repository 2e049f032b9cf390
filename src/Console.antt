-- ===== src/Console.antt =====
-- lib/console.c: the text console on the frame buffer, with the formatted output that it shares with
-- lib/sprintf.c.
pub mod Grid
pub mod Typed
pub mod Output
mod Witness
use neko_os_c.Prelude.{
  ℕ, zero, suc, ◌+◌, ◌-◌, ◌*◌, ◌/◌, ◌^◌, Bool, true, false, Option, List, [], ◌∷◌, ◌==◌, ltb, leb,
  if◌then◌else◌, u32, Run, ok, fault, ◌||◌, ◌>>=◌,
}
use neko_os_c.Framebuffer.{Fb, fb_clear, fb_color}
use neko_os_c.Font.{Font, font_init, font_draw_char}
use neko_os_c.Alloc.{Heap, kmalloc}
use neko_os_c.Format.Parse.{Flags}
use neko_os_c.Format.Print.{print_uint, print_int}
use neko_os_c.Format.Vprintf.{vprintf}

-- console_char_t.
pub record Glyph : Type 0 where
  pub c : ℕ
  pub fg : ℕ
  pub bg : ℕ

-- The statics of console.c and what it draws with. `buffer` is the array, by index, and `has_buffer`
-- says that the pointer to it is not null.
pub record Console : Type 0 where
  pub initialized : Bool
  pub cursor_x : ℕ
  pub cursor_y : ℕ
  pub fg_color : ℕ
  pub bg_color : ℕ
  pub cols : ℕ
  pub rows : ℕ
  pub char_w : ℕ
  pub char_h : ℕ
  pub has_buffer : Bool
  pub buffer : ℕ → Glyph
  pub font : Font
  pub fb : Fb

abbrev pub blank : Console → Glyph
blank k = record { c = 32; fg = k.fg_color; bg = k.bg_color }

abbrev pub store : ℕ → Glyph → (ℕ → Glyph) → ℕ → Glyph
store i g buffer j = if j == i then g else buffer j

-- `n` rounds of `buffer[i] = g`, from `i` on.
unfoldable pub fill_cells : (n i : ℕ) → Glyph → (ℕ → Glyph) → ℕ → Glyph
fill_cells zero i g buffer = buffer
fill_cells (suc n) i g buffer = fill_cells n (suc i) g (store i g buffer)

unfoldable pub console_clear : Console → Console
unfolding fill_cells
console_clear k = record k {
  fb = fb_clear k.bg_color k.fb;
  buffer =
      if k.has_buffer then fill_cells (u32 (k.cols * k.rows)) 0 (blank k) k.buffer else k.buffer;
  cursor_x = 0;
  cursor_y = 0;
}

-- The size that console_init asks the heap for, at 12 bytes a cell; a font of no width or no
-- height divides by 0.
unfoldable pub console_init : Console → Heap → Run (Console × Heap)
unfolding console_clear
console_init k heap = font_init k.font >>= λ font.
    if font.width == 0 || font.height == 0
    then fault
    else (let cols = k.fb.width / font.width in
        let rows = k.fb.height / font.height in
        kmalloc (u32 (cols * rows) * 12) heap >>= λ (p, heap'). ok (
          record (console_clear (record k {
            font = font;
            char_w = font.width;
            char_h = font.height;
            cols = cols;
            rows = rows;
            fg_color = fb_color 255 255 255;
            bg_color = fb_color 0 0 0;
            has_buffer = if p == 0 then false else true;
          })) { initialized = true },
          heap',
        ))

abbrev pub console_set_color : (fg bg : ℕ) → Console → Console
console_set_color fg bg k = record k { fg_color = fg; bg_color = bg }

-- `n` rounds of the inner loop of redraw_all, from the column `x` on.
unfoldable pub redraw_row : (n : ℕ) → Console → (x y : ℕ) → Fb → Fb
redraw_row zero k x y fb = fb
redraw_row (suc n) k x y fb =
    let cc = k.buffer (u32 (u32 (y * k.cols) + x)) in
    redraw_row n k (suc x) y
      (font_draw_char k.font cc.c (u32 (x * k.char_w)) (u32 (y * k.char_h)) cc.fg cc.bg fb)

unfoldable pub redraw_rows : (n : ℕ) → Console → (y : ℕ) → Fb → Fb
redraw_rows zero k y fb = fb
redraw_rows (suc n) k y fb = redraw_rows n k (suc y) (redraw_row k.cols k 0 y fb)

abbrev pub redraw_all : Console → Console
redraw_all k = record k { fb = redraw_rows k.rows k 0 k.fb }

-- memmove of `n` cells from the index `cols` to the start of the buffer.
abbrev pub move_cells : (n cols : ℕ) → (ℕ → Glyph) → ℕ → Glyph
move_cells n cols buffer i = if ltb i n then buffer (i + cols) else buffer i

-- The cells that scroll leaves.
unfoldable pub scrolled : Console → ℕ → Glyph
unfolding fill_cells
scrolled k =
    let last = u32 (u32 (k.rows + 2 ^ 32 - 1) * k.cols) in
    fill_cells k.cols last (blank k) (move_cells last k.cols k.buffer)

unfoldable pub scroll : Console → Console
unfolding scrolled
scroll k = redraw_all (record k { buffer = scrolled k })

-- The case of console_putchar for a character that is shown.
unfoldable pub show_char : (c : ℕ) → Console → Console
show_char c k =
    let k1 = record k {
      buffer =
          if k.has_buffer
          then store (u32 (u32 (k.cursor_y * k.cols) + k.cursor_x))
              (record { c = c; fg = k.fg_color; bg = k.bg_color }) k.buffer
          else k.buffer;
      fb =
          font_draw_char k.font c (u32 (k.cursor_x * k.char_w)) (u32 (k.cursor_y * k.char_h))
            k.fg_color k.bg_color k.fb;
      cursor_x = u32 (k.cursor_x + 1);
    } in
    if leb k1.cols k1.cursor_x
    then record k1 { cursor_x = 0; cursor_y = u32 (k1.cursor_y + 1) }
    else k1

-- The end of console_putchar. scroll does not look whether there is a buffer.
unfoldable pub wrap_down : Console → Run Console
wrap_down k =
    if leb k.rows k.cursor_y
    then if k.has_buffer
      then ok (record (scroll k) { cursor_y = u32 (k.rows + 2 ^ 32 - 1) })
      else fault
    else ok k

-- What console_putchar does before it.
unfoldable pub place_char : (c : ℕ) → Console → Console
place_char c k =
    if c == 10
    then record k { cursor_x = 0; cursor_y = u32 (k.cursor_y + 1) }
    else if c == 13
    then record k { cursor_x = 0 }
    else if c == 8
    then if k.cursor_x == 0 then k else record k { cursor_x = k.cursor_x - 1 }
    else show_char c k

unfoldable pub console_putchar : (c : ℕ) → Console → Run Console
unfolding wrap_down place_char
console_putchar c k = wrap_down (place_char c k)

-- A string is the list of its characters before the terminator.
unfoldable pub console_print : List ℕ → Console → Run Console
unfolding console_putchar
console_print [] k = ok k
console_print (c ∷ str) k = console_putchar c k >>= console_print str

unfoldable pub cprint_uint :
    (value base width : ℕ) → Option ℕ → Flags → Bool → Console → Run Console
cprint_uint = print_uint console_putchar

unfoldable pub cprint_int : (value width : ℕ) → Option ℕ → Flags → Console → Run Console
cprint_int = print_int console_putchar

unfoldable pub cvprintf : (ℕ → ℕ) → (fmt args : List ℕ) → Console → Run Console
cvprintf = vprintf console_putchar
