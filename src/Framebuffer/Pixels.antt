-- ===== src/Framebuffer/Pixels.antt =====
-- drivers/framebuffer.c: what fb_get_pixel reads behind a fb_put_pixel.
use neko_os_c.Prelude.{
  ℕ, ◌+◌, ◌*◌, ◌/◌, ◌^◌, ◌≤◌, ◌<◌, ◌≡◌, refl, ap, sym, ◌∙◌, Bool, true, false, ◌&&◌, ◌==◌,
  if◌then◌else◌, Bool-cases, u64, arith, inl, inr, ◌⊎◌, bit_and, bit_or, ◌<<<◌, ◌>>>◌,
  bit_or_fields, bit_and_mask,
}
use native.Mathlib.Nat.{mul-le-mul_right, suc-mul}
use neko_os_c.Mem.{Bytes, poke}
use neko_os_c.Framebuffer.{Fb, pixel_at, put_bytes, fb_put_pixel, fb_get_pixel, fb_color}

-- A frame buffer of at least three bytes a pixel, whose rows are apart and below 2 ^ 32 bytes
-- together, and that does not wrap around the end of the addresses.
pub record IsFb (fb : Fb) : Type 0 where
  pub three : 3 ≤ fb.bpp / 8
  pub rows_apart : fb.width * (fb.bpp / 8) ≤ fb.pitch
  pub size_fits : fb.height * fb.pitch < 2 ^ 32
  pub end_fits : fb.addr + fb.height * fb.pitch < 2 ^ 64

fb_color_is : (r g b : ℕ) → g < 256 → b < 256 → fb_color r g b ≡ r * 65536 + g * 256 + b
fb_color_is r g b lg lb =
    ap (λ c. bit_or c b) red_green
    ∙ ap (λ c. bit_or c b) regroup
    ∙ bit_or_fields 8 (r * 256 + g) b lb
    ∙ omega arith
  where
    red_green : bit_or (r <<< 16) (g <<< 8) ≡ r * 2 ^ 16 + g * 256
    red_green = bit_or_fields 16 r (g * 256) (omega arith)

    regroup : r * 2 ^ 16 + g * 256 ≡ (r * 256 + g) <<< 8
    regroup = omega arith

-- The channels of a colour, as fb_put_pixel stores them.
abbrev pub blue : ℕ → ℕ
blue color = bit_and color 255

abbrev pub green : ℕ → ℕ
green color = bit_and (color >>> 8) 255

abbrev pub red : ℕ → ℕ
red color = bit_and (color >>> 16) 255

channel_fits : (c : ℕ) → bit_and c 255 < 256
channel_fits c = omega (arith, bit_and_mask 8 c)

-- The colour that fb_get_pixel reads: it takes the byte that fb_put_pixel stores the blue in for the
-- red.
abbrev pub read_back : ℕ → ℕ
read_back color = fb_color (blue color) (green color) (red color)

pub read_back-fb_color :
    (r g b : ℕ) → r < 256 → g < 256 → b < 256 → read_back (fb_color r g b) ≡ fb_color b g r
read_back-fb_color r g b lr lg lb = rw (b_is, g_is, r_is) refl
  where
    b_is : blue (fb_color r g b) ≡ b
    b_is = omega (arith, bit_and_mask 8 (fb_color r g b), fb_color_is r g b lg lb)

    g_is : green (fb_color r g b) ≡ g
    g_is = omega (arith, bit_and_mask 8 (fb_color r g b >>> 8), fb_color_is r g b lg lb)

    r_is : red (fb_color r g b) ≡ r
    r_is = omega (arith, bit_and_mask 8 (fb_color r g b >>> 16), fb_color_is r g b lg lb)

-- Where a pixel stands.
abbrev pub place : ℕ → ℕ → Fb → ℕ
place x y fb = fb.addr + y * fb.pitch + x * (fb.bpp / 8)

column_fits : (fb : Fb) (x : ℕ) → IsFb fb → x < fb.width → x * (fb.bpp / 8) + fb.bpp / 8 ≤ fb.pitch
column_fits fb x is lx =
    omega (arith, mul-le-mul_right (fb.bpp / 8) lx, suc-mul x (fb.bpp / 8), is.rows_apart)

row_fits : (fb : Fb) (y : ℕ) → y < fb.height → y * fb.pitch + fb.pitch ≤ fb.height * fb.pitch
row_fits fb y ly = omega (arith, mul-le-mul_right fb.pitch ly, suc-mul y fb.pitch)

place_fits :
    (fb : Fb) (x y : ℕ) → IsFb fb → x < fb.width → y < fb.height → place x y fb + 3 < 2 ^ 64
place_fits fb x y is lx ly =
    omega (arith, column_fits fb x is lx, row_fits fb y ly, is.three, is.end_fits)

pub pixel_at-place :
    (fb : Fb) (x y : ℕ) → IsFb fb → x < fb.width → y < fb.height → pixel_at x y fb ≡ place x y fb
pixel_at-place fb x y is lx ly =
    omega
      (arith, column_fits fb x is lx, row_fits fb y ly, place_fits fb x y is lx ly, is.size_fits)

-- Pixels do not overlap.
abbrev Apart : ℕ → ℕ → Type 0
Apart p q = (p + 3 ≤ q) ⊎ (q + 3 ≤ p)

left_of : (fb : Fb) (x y x' : ℕ) → IsFb fb → x < x' → place x y fb + 3 ≤ place x' y fb
left_of fb x y x' is l =
    omega (arith, mul-le-mul_right (fb.bpp / 8) l, suc-mul x (fb.bpp / 8), is.three)

above_of :
    (fb : Fb) (x y x' y' : ℕ) → IsFb fb → x < fb.width → y < y' → place x y fb + 3 ≤ place x' y' fb
above_of fb x y x' y' is lx l =
    omega (arith, mul-le-mul_right fb.pitch l, suc-mul y fb.pitch, column_fits fb x is lx, is.three)

order_cases : (a b : ℕ) → (a < b) ⊎ ((a ≡ b) ⊎ (b < a))
order_cases a b = ground arith

pixels-Apart :
    (fb : Fb) (x y x' y' : ℕ)
    → IsFb fb
    → x < fb.width
    → x' < fb.width
    → (x' == x && y' == y) ≡ false
    → Apart (place x y fb) (place x' y' fb)
pixels-Apart fb x y x' y' is lx lx' ne = elim (order_cases y y') [
  | inl above ↦ inl (above_of fb x y x' y' is lx above)
  | inr (inr below) ↦ inr (above_of fb x' y' x y is lx' below)
  | inr (inl same) ↦ elim (order_cases x x') [
    | inl left ↦ inl (omega (arith, left_of fb x y x' is left, ap (λ t. place x' t fb) same))
    | inr (inr right) ↦
        inr (omega (arith, left_of fb x' y x is right, ap (λ t. place x' t fb) same))
    | inr (inl e) ↦ absurd (ground arith)
  ]
]

-- The three bytes of a pixel.
abbrev pub triple : ℕ → Bytes → ℕ
triple p m = bit_or (bit_or (m p <<< 16) (m (u64 (p + 1)) <<< 8)) (m (u64 (p + 2)))

triple-put_self :
    (p color : ℕ) (m : Bytes) → p + 3 < 2 ^ 64 → triple p (put_bytes p color m) ≡ read_back color
unfolding put_bytes poke
triple-put_self p color m fits = rw (first, second, third) refl
  where
    first : put_bytes p color m p ≡ blue color
    first = ground arith

    second : put_bytes p color m (u64 (p + 1)) ≡ green color
    second = ground arith

    third : put_bytes p color m (u64 (p + 2)) ≡ red color
    third = ground arith

put_other :
    (p q color : ℕ) (m : Bytes)
    → p + 3 < 2 ^ 64
    → (q < p) ⊎ (p + 3 ≤ q)
    → put_bytes p color m q ≡ m q
unfolding put_bytes poke
put_other p q color m fits out = ground arith

triple-put_other :
    (p q color : ℕ) (m : Bytes)
    → p + 3 < 2 ^ 64
    → q + 3 < 2 ^ 64
    → Apart p q
    → triple q (put_bytes p color m) ≡ triple q m
triple-put_other p q color m fits fits' apart =
    rw
      (
        put_other p q color m fits (ground arith),
        put_other p (u64 (q + 1)) color m fits (ground arith),
        put_other p (u64 (q + 2)) color m fits (ground arith),
      )
      refl

pub put_inside :
    (x y color : ℕ) (fb : Fb)
    → x < fb.width
    → y < fb.height
    → fb_put_pixel x y color fb ≡ record fb { bytes = put_bytes (pixel_at x y fb) color fb.bytes }
unfolding fb_put_pixel
put_inside x y color fb lx ly = ground arith

pub put_outside :
    (x y color : ℕ) (fb : Fb) → (fb.width ≤ x) ⊎ (fb.height ≤ y) → fb_put_pixel x y color fb ≡ fb
unfolding fb_put_pixel
put_outside x y color fb out = ground arith

inside_cases : (x y w h : ℕ) → ((x < w) × (y < h)) ⊎ ((w ≤ x) ⊎ (h ≤ y))
inside_cases x y w h = ground arith

pixel_fits :
    (fb : Fb) (x y : ℕ) → IsFb fb → x < fb.width → y < fb.height → pixel_at x y fb + 3 < 2 ^ 64
pixel_fits fb x y is lx ly =
    omega (arith, pixel_at-place fb x y is lx ly, place_fits fb x y is lx ly)

module _ (fb : Fb) (x y color : ℕ) (is : IsFb fb) (lx : x < fb.width) (ly : y < fb.height) where
  get_here : fb_get_pixel x y (fb_put_pixel x y color fb) ≡ read_back color
  get_here =
      ap (fb_get_pixel x y) (put_inside x y color fb lx ly)
      ∙ triple-put_self (pixel_at x y fb) color fb.bytes (pixel_fits fb x y is lx ly)

  get_there :
      (x' y' : ℕ)
      → x' < fb.width
      → y' < fb.height
      → (x' == x && y' == y) ≡ false
      → fb_get_pixel x' y' (fb_put_pixel x y color fb) ≡ fb_get_pixel x' y' fb
  get_there x' y' lx' ly' ne =
      ap (fb_get_pixel x' y') (put_inside x y color fb lx ly)
      ∙ triple-put_other (pixel_at x y fb) (pixel_at x' y' fb) color fb.bytes
          (pixel_fits fb x y is lx ly) (pixel_fits fb x' y' is lx' ly')
          (rw (pixel_at-place fb x y is lx ly, pixel_at-place fb x' y' is lx' ly')
            (pixels-Apart fb x y x' y' is lx lx' ne))

pub pick_true : {b : Bool} (p q : ℕ) → b ≡ true → p ≡ (if b then p else q)
pick_true p q e = ap (λ c. if c then p else q) (sym e)

pub pick_false : {b : Bool} (p q : ℕ) → b ≡ false → q ≡ (if b then p else q)
pick_false p q e = ap (λ c. if c then p else q) (sym e)

same_of : (x x' y y' : ℕ) → (x' == x && y' == y) ≡ true → (x' ≡ x) × (y' ≡ y)
same_of x x' y y' e = ground arith

differ_of : (x x' y y' w h : ℕ) → (w ≤ x) ⊎ (h ≤ y) → x' < w → y' < h → (x' == x && y' == y) ≡ false
differ_of x x' y y' w h out lx ly = ground arith

-- fb_put_pixel changes the pixel that it names, and no other pixel of the screen.
pub fb_get_pixel-fb_put_pixel :
    (fb : Fb) (x y color x' y' : ℕ)
    → IsFb fb
    → x' < fb.width
    → y' < fb.height
    → fb_get_pixel x' y' (fb_put_pixel x y color fb)
      ≡ (if x' == x && y' == y then read_back color else fb_get_pixel x' y' fb)
fb_get_pixel-fb_put_pixel fb x y color x' y' is lx' ly' =
    elim (inside_cases x y fb.width fb.height) [
      | inl (lx, ly) ↦ elim (Bool-cases (x' == x && y' == y)) [
        | inl here ↦
            (let (ex, ey) = same_of x x' y y' here in
              ap (λ a. fb_get_pixel a y' (fb_put_pixel x y color fb)) ex
              ∙ ap (λ b. fb_get_pixel x b (fb_put_pixel x y color fb)) ey
              ∙ get_here fb x y color is lx ly
              ∙ pick_true _ _ here)
        | inr there ↦ get_there fb x y color is lx ly x' y' lx' ly' there ∙ pick_false _ _ there
      ]
      | inr out ↦
          (ap (fb_get_pixel x' y') (put_outside x y color fb out)
            ∙ pick_false _ _ (differ_of x x' y y' fb.width fb.height out lx' ly'))
    ]

-- A colour that fb_put_pixel stores is read by fb_get_pixel with red and blue exchanged.
pub fb_get_pixel-fb_color :
    (fb : Fb) (x y r g b : ℕ)
    → IsFb fb
    → x < fb.width
    → y < fb.height
    → r < 256
    → g < 256
    → b < 256
    → fb_get_pixel x y (fb_put_pixel x y (fb_color r g b) fb) ≡ fb_color b g r
fb_get_pixel-fb_color fb x y r g b is lx ly lr lg lb =
    get_here fb x y (fb_color r g b) is lx ly ∙ read_back-fb_color r g b lr lg lb

-- A pixel ends within the rows.
pub place-within :
    (fb : Fb) (x y : ℕ)
    → IsFb fb
    → x < fb.width
    → y < fb.height
    → place x y fb + 3 ≤ fb.addr + fb.height * fb.pitch
place-within fb x y is lx ly = omega (arith, column_fits fb x is lx, row_fits fb y ly, is.three)
