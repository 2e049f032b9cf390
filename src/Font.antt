-- ===== src/Font.antt =====
-- drivers/font.c: the PSF font that the build links into the kernel, and its characters drawn on the
-- frame buffer.
use neko_os_c.Prelude.{
  ℕ, zero, suc, ◌+◌, ◌-◌, ◌*◌, ◌/◌, ◌%◌, Option, none, some, ◌==◌, if◌then◌else◌, u8, u32, ◌>>>◌,
  Run, ok, panic, bit_and,
}
use neko_os_c.Mem.{Bytes, word16, word32}
use neko_os_c.Framebuffer.{Fb, fb_put_pixel}

-- `data` is the font file; `glyphs` is where the glyphs stand in it, once font_init has run.
pub record Font : Type 0 where
  pub data_at : Bytes
  pub glyphs : Option ℕ
  pub width : ℕ
  pub height : ℕ
  pub glyph_size : ℕ

abbrev pub psf1_magic : ℕ
psf1_magic = 0x0436

abbrev pub psf2_magic : ℕ
psf2_magic = 0x864AB572

-- The offsets are those of psf1_header_t and psf2_header_t, which are packed.
unfoldable pub font_init : Font → Run Font
font_init f =
    let d = f.data_at in
    if word16 d 0 == psf1_magic
    then ok (record f { glyphs = some 4; width = 8; height = d 3; glyph_size = d 3 })
    else if word32 d 0 == psf2_magic
    then ok (record f {
      glyphs = some (word32 d 8);
      width = word32 d 28;
      height = word32 d 24;
      glyph_size = word32 d 20;
    })
    else panic

-- The colour of one pixel of the glyph at `glyph`.
abbrev pub glyph_color : (f : Font) → (glyph row col fg bg : ℕ) → ℕ
glyph_color f glyph row col fg bg =
    let bytes_per_row = u32 (f.width + 7) / 8 in
    let byte = f.data_at (glyph + u32 (u32 (row * bytes_per_row) + col / 8)) in
    if bit_and (byte >>> (7 - col % 8)) 1 == 0 then bg else fg

-- `n` rounds of the loop over the columns of a row, from `col` on.
unfoldable pub draw_columns : (n : ℕ) → Font → (glyph row col x y fg bg : ℕ) → Fb → Fb
draw_columns zero f glyph row col x y fg bg fb = fb
draw_columns (suc n) f glyph row col x y fg bg fb =
    draw_columns n f glyph row (suc col) x y fg bg
      (fb_put_pixel (u32 (x + col)) (u32 (y + row)) (glyph_color f glyph row col fg bg) fb)

unfoldable pub draw_rows : (n : ℕ) → Font → (glyph row x y fg bg : ℕ) → Fb → Fb
draw_rows zero f glyph row x y fg bg fb = fb
draw_rows (suc n) f glyph row x y fg bg fb =
    draw_rows n f glyph (suc row) x y fg bg (draw_columns f.width f glyph row 0 x y fg bg fb)

unfoldable pub font_draw_char : Font → (c x y fg bg : ℕ) → Fb → Fb
font_draw_char f c x y fg bg fb = elim f.glyphs [
  | none ↦ fb
  | some glyphs ↦ draw_rows f.height f (glyphs + u32 (u8 c * f.glyph_size)) 0 x y fg bg fb
]
