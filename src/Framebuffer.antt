-- ===== src/Framebuffer.antt =====
-- drivers/framebuffer.c: pixels of three bytes in the memory of the frame buffer.
pub mod Pixels
pub mod Fill
pub mod Setup
mod Witness
use neko_os_c.Prelude.{
  ℕ, zero, suc, ◌+◌, ◌-◌, ◌*◌, ◌/◌, ◌^◌, ◌%◌, Bool, true, false, ◌||◌, ◌==◌, ltb, leb,
  if◌then◌else◌, u8, u32, u64, bit_and, bit_or, ◌<<<◌, ◌>>>◌,
}
use neko_os_c.Mem.{Bytes, poke}

-- fb_info_t, and the memory that the pixels lie in.
pub record Fb : Type 0 where
  pub addr : ℕ
  pub width : ℕ
  pub height : ℕ
  pub pitch : ℕ
  pub bpp : ℕ
  pub bytes : Bytes

-- The products are on uint32_t, and the sum is on addresses.
abbrev pub pixel_at : ℕ → ℕ → Fb → ℕ
pixel_at x y fb = u64 (fb.addr + u32 (y * fb.pitch) + u32 (x * (fb.bpp / 8)))

unfoldable pub put_bytes : (p color : ℕ) → Bytes → Bytes
unfolding poke
put_bytes p color m =
    poke (poke (poke m p (bit_and color 255)) (u64 (p + 1)) (bit_and (color >>> 8) 255))
      (u64 (p + 2)) (bit_and (color >>> 16) 255)

unfoldable pub fb_put_pixel : (x y color : ℕ) → Fb → Fb
unfolding put_bytes
fb_put_pixel x y color fb =
    if leb fb.width x || leb fb.height y
    then fb
    else record fb { bytes = put_bytes (pixel_at x y fb) color fb.bytes }

abbrev pub fb_color : (r g b : ℕ) → ℕ
fb_color r g b = bit_or (bit_or (r <<< 16) (g <<< 8)) b

abbrev pub fb_get_pixel : (x y : ℕ) → Fb → ℕ
fb_get_pixel x y fb =
    let p = pixel_at x y fb in
    bit_or (bit_or (fb.bytes p <<< 16) (fb.bytes (u64 (p + 1)) <<< 8)) (fb.bytes (u64 (p + 2)))

-- `n` more rounds of a loop over the columns from `x` on.
unfoldable pub fill_row : (n x y color : ℕ) → Fb → Fb
fill_row zero x y color fb = fb
fill_row (suc n) x y color fb = fill_row n (suc x) y color (fb_put_pixel x y color fb)

unfoldable pub fill_rows : (n w x y color : ℕ) → Fb → Fb
unfolding fill_row
fill_rows zero w x y color fb = fb
fill_rows (suc n) w x y color fb = fill_rows n w x (suc y) color (fill_row w x y color fb)

unfoldable pub fb_clear : (color : ℕ) → Fb → Fb
unfolding fill_rows
fb_clear color fb = fill_rows fb.height fb.width 0 0 color fb

-- `col < x + w` on uint32_t, from `x` on: the loop has as many rounds as the wrapped sum exceeds `x`.
unfoldable pub fb_fill_rect : (x y w h color : ℕ) → Fb → Fb
unfolding fill_rows
fb_fill_rect x y w h color fb = fill_rows (u32 (y + h) - y) (u32 (x + w) - x) x y color fb

abbrev pub logo_size : ℕ
logo_size = 64

abbrev pub logo_gap : ℕ
logo_gap = 4

-- One channel of a pixel of the logo over the background.
abbrev pub blend : (a over under : ℕ) → ℕ
blend a over under = u8 ((over * a + under * (255 - a)) / 255)

-- The pixel of the logo at `px`, which is red, green, blue and alpha, drawn at (x, y).
unfoldable pub draw_logo_pixel : (logo : Bytes) → (px x y : ℕ) → Fb → Fb
unfolding fb_put_pixel
draw_logo_pixel logo px x y fb =
    let r = logo px in
    let g = logo (px + 1) in
    let b = logo (px + 2) in
    let a = logo (px + 3) in
    if a == 0
    then fb
    else if a == 255
    then fb_put_pixel x y (fb_color r g b) fb
    else (let bg = fb_get_pixel x y fb in
        fb_put_pixel x y
          (fb_color (blend a r (bit_and (bg >>> 16) 255)) (blend a g (bit_and (bg >>> 8) 255))
            (blend a b (bit_and bg 255)))
          fb)

unfoldable pub draw_logo_row : (n : ℕ) → (logo : Bytes) → (px x y : ℕ) → Fb → Fb
unfolding draw_logo_pixel
draw_logo_row zero logo px x y fb = fb
draw_logo_row (suc n) logo px x y fb =
    draw_logo_row n logo (px + 4) (u32 (x + 1)) y (draw_logo_pixel logo px x y fb)

unfoldable pub draw_logo_rows : (n : ℕ) → (logo : Bytes) → (px x y : ℕ) → Fb → Fb
unfolding draw_logo_row
draw_logo_rows zero logo px x y fb = fb
draw_logo_rows (suc n) logo px x y fb =
    draw_logo_rows n logo (px + 4 * logo_size) x (u32 (y + 1))
      (draw_logo_row logo_size logo px x y fb)

-- `logo` is the image that the build links into the kernel.
unfoldable pub fb_draw_logo : (logo : Bytes) → (x y : ℕ) → Fb → Fb
unfolding draw_logo_rows
fb_draw_logo logo x y fb = draw_logo_rows logo_size logo 0 x y fb

unfoldable pub draw_logos : (n : ℕ) → (logo : Bytes) → (i x y : ℕ) → Fb → Fb
unfolding fb_draw_logo
draw_logos zero logo i x y fb = fb
draw_logos (suc n) logo i x y fb =
    draw_logos n logo (suc i) x y
      (fb_draw_logo logo (u32 (x + u32 (i * (logo_size + logo_gap)))) y fb)

-- `- LOGO_GAP`, `(width - total) / 2` and `height - 64 - 10` wrap on uint32_t.
unfoldable pub fb_draw_cpu_logos : (logo : Bytes) → (cpu_count : ℕ) → Fb → Fb
unfolding draw_logos
fb_draw_cpu_logos logo cpu_count fb =
    let total_width = u32 (u32 (cpu_count * (logo_size + logo_gap)) + 2 ^ 32 - logo_gap) in
    let x = u32 (fb.width + 2 ^ 32 - total_width) / 2 in
    let y = u32 (fb.height + 2 ^ 32 - logo_size - 10) in draw_logos cpu_count logo 0 x y fb
