-- ===== src/Framebuffer/Fill.antt =====
-- drivers/framebuffer.c: the pixels that fb_fill_rect and fb_clear set.
use neko_os_c.Prelude.{
  ℕ, zero, suc, ◌+◌, ◌-◌, ◌^◌, ◌<◌, ◌≡◌, refl, ◌∙◌, Bool, ◌&&◌, ◌==◌, ltb, leb, if◌then◌else◌, u32,
  arith,
}
use neko_os_c.Framebuffer.{
  Fb, fb_put_pixel, fb_get_pixel, fill_row, fill_rows, fb_fill_rect, fb_clear,
}
use neko_os_c.Framebuffer.Pixels.{IsFb, read_back, fb_get_pixel-fb_put_pixel}

-- The layout of a frame buffer, which nothing here changes.
abbrev pub SameLayout : Fb → Fb → Type 0
SameLayout fb fb' =
    (fb'.addr ≡ fb.addr)
    × ((fb'.width ≡ fb.width)
        × ((fb'.height ≡ fb.height) × ((fb'.pitch ≡ fb.pitch) × (fb'.bpp ≡ fb.bpp))))

put-SameLayout : (x y color : ℕ) (fb : Fb) → SameLayout fb (fb_put_pixel x y color fb)
unfolding fb_put_pixel
put-SameLayout x y color fb = ground arith

SameLayout-trans : (a b c : Fb) → SameLayout a b → SameLayout b c → SameLayout a c
SameLayout-trans a b c (p, (q, (r, (s, t)))) (p', (q', (r', (s', t')))) =
    (p' ∙ p, (q' ∙ q, (r' ∙ r, (s' ∙ s, t' ∙ t))))

IsFb-same : (fb fb' : Fb) → SameLayout fb fb' → IsFb fb → IsFb fb'
IsFb-same fb fb' (p, (q, (r, (s, t)))) is = record {
  three = rw t is.three;
  rows_apart = rw (q, t, s) is.rows_apart;
  size_fits = rw (r, s) is.size_fits;
  end_fits = rw (p, r, s) is.end_fits;
}

-- (x', y') lies in the `w` by `h` rectangle at (x, y).
abbrev pub inside : (x y w h x' y' : ℕ) → Bool
inside x y w h x' y' = (leb x x' && ltb x' (x + w)) && (leb y y' && ltb y' (y + h))

-- `fb'` is `fb` with the rectangle filled, where the pixel (x', y') is concerned.
abbrev pub Filled : (x y w h color : ℕ) → Fb → Fb → Type 0
Filled x y w h color fb fb' =
    SameLayout fb fb'
    × ((x' y' : ℕ)
        → x' < fb.width
        → y' < fb.height
        → fb_get_pixel x' y' fb'
          ≡ (if inside x y w h x' y' then read_back color else fb_get_pixel x' y' fb))

nothing_inside : (x y h x' y' c g : ℕ) → g ≡ (if inside x y 0 h x' y' then c else g)
nothing_inside x y h x' y' c g = ground arith

no_rows_inside : (x y w x' y' c g : ℕ) → g ≡ (if inside x y w 0 x' y' then c else g)
no_rows_inside x y w x' y' c g = ground arith

add_pixel :
    (n x y x' y' c g g1 g2 : ℕ)
    → g1 ≡ (if x' == x && y' == y then c else g)
    → g2 ≡ (if inside (suc x) y n 1 x' y' then c else g1)
    → g2 ≡ (if inside x y (suc n) 1 x' y' then c else g)
add_pixel n x y x' y' c g g1 g2 e1 e2 = ground arith

add_row :
    (n w x y x' y' c g g1 g2 : ℕ)
    → g1 ≡ (if inside x y w 1 x' y' then c else g)
    → g2 ≡ (if inside x (suc y) w n x' y' then c else g1)
    → g2 ≡ (if inside x y w (suc n) x' y' then c else g)
add_row n w x y x' y' c g g1 g2 e1 e2 = ground arith

same_size :
    (fb fb' : Fb) (x' y' : ℕ)
    → SameLayout fb fb'
    → x' < fb.width
    → y' < fb.height
    → (x' < fb'.width) × (y' < fb'.height)
same_size fb fb' x' y' (p, (q, (r, st))) lx ly = (omega (arith, q, lx), omega (arith, r, ly))

fill_row-Filled :
    (n x y color : ℕ) (fb : Fb) → IsFb fb → Filled x y n 1 color fb (fill_row n x y color fb)
unfolding fill_row
fill_row-Filled zero x y color fb is =
    ((refl, (refl, (refl, (refl, refl)))), λ x' y' lx ly. nothing_inside x y 1 x' y' _ _)
fill_row-Filled (suc n) x y color fb is =
    let fb1 = fb_put_pixel x y color fb in
    let same = put-SameLayout x y color fb in
    let (same', filled) = fill_row-Filled n (suc x) y color fb1 (IsFb-same fb fb1 same is) in
    (
      SameLayout-trans fb fb1 (fill_row n (suc x) y color fb1) same same',
      λ x' y' lx ly.
          let (lx1, ly1) = same_size fb fb1 x' y' same lx ly in
          add_pixel n x y x' y' (read_back color) (fb_get_pixel x' y' fb) (fb_get_pixel x' y' fb1) _
            (fb_get_pixel-fb_put_pixel fb x y color x' y' is lx ly) (filled x' y' lx1 ly1),
    )

fill_rows-Filled :
    (n w x y color : ℕ) (fb : Fb) → IsFb fb → Filled x y w n color fb (fill_rows n w x y color fb)
unfolding fill_rows
fill_rows-Filled zero w x y color fb is =
    ((refl, (refl, (refl, (refl, refl)))), λ x' y' lx ly. no_rows_inside x y w x' y' _ _)
fill_rows-Filled (suc n) w x y color fb is =
    let fb1 = fill_row w x y color fb in
    let (same, row) = fill_row-Filled w x y color fb is in
    let (same', filled) = fill_rows-Filled n w x (suc y) color fb1 (IsFb-same fb fb1 same is) in
    (
      SameLayout-trans fb fb1 (fill_rows n w x (suc y) color fb1) same same',
      λ x' y' lx ly.
          let (lx1, ly1) = same_size fb fb1 x' y' same lx ly in
          add_row n w x y x' y' (read_back color) (fb_get_pixel x' y' fb) (fb_get_pixel x' y' fb1) _
            (row x' y' lx ly) (filled x' y' lx1 ly1),
    )

-- fb_fill_rect fills the pixels of the screen in the rectangle, and changes no other pixel, where the
-- corner (x + w, y + h) is below 2 ^ 32.
pub fb_fill_rect-Filled :
    (x y w h color : ℕ) (fb : Fb)
    → IsFb fb
    → x + w < 2 ^ 32
    → y + h < 2 ^ 32
    → Filled x y w h color fb (fb_fill_rect x y w h color fb)
unfolding fb_fill_rect
fb_fill_rect-Filled x y w h color fb is fx fy =
    rw (extent x w fx, extent y h fy) (fill_rows-Filled h w x y color fb is)
  where
    extent : (a n : ℕ) → a + n < 2 ^ 32 → u32 (a + n) - a ≡ n
    extent a n f = omega arith

-- fb_clear sets every pixel of the screen.
pub fb_clear-read_back :
    (color : ℕ) (fb : Fb) (x y : ℕ)
    → IsFb fb
    → x < fb.width
    → y < fb.height
    → fb_get_pixel x y (fb_clear color fb) ≡ read_back color
unfolding fb_clear
fb_clear-read_back color fb x y is lx ly =
    (fill_rows-Filled fb.height fb.width 0 0 color fb is).1 x y lx ly
    ∙ within fb.width fb.height x y (read_back color) (fb_get_pixel x y fb) lx ly
  where
    within : (w h x y c g : ℕ) → x < w → y < h → (if inside 0 0 w h x y then c else g) ≡ c
    within w h x y c g lx ly = ground arith
