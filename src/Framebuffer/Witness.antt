-- ===== src/Framebuffer/Witness.antt =====
-- drivers/framebuffer.c: a frame buffer of four by four pixels.
use neko_os_c.Mem.{Bytes}
use neko_os_c.Prelude.{get_or, [], ◌∷◌, ◌-◌, ◌≡◌, arith, if◌then◌else◌, ◌==◌, ◌&&◌}
use neko_os_c.Framebuffer.{Fb, fb_put_pixel, fb_get_pixel, fb_fill_rect}
use neko_os_c.Framebuffer.Pixels.{IsFb, read_back, fb_get_pixel-fb_put_pixel}
use neko_os_c.Framebuffer.Fill.{Filled, fb_fill_rect-Filled}

abbrev screen : Fb
screen = record { addr = 0x1000; width = 4; height = 4; pitch = 16; bpp = 32; bytes = λ a. 0 }

screen-IsFb : IsFb screen
screen-IsFb = record {
  three = omega arith;
  rows_apart = omega arith;
  size_fits = omega arith;
  end_fits = omega arith;
}

fb_get_pixel-fb_put_pixel_example :
    fb_get_pixel 2 1 (fb_put_pixel 1 2 0x123456 screen)
    ≡ (if 2 == 1 && 1 == 2 then read_back 0x123456 else fb_get_pixel 2 1 screen)
fb_get_pixel-fb_put_pixel_example =
    fb_get_pixel-fb_put_pixel screen 1 2 0x123456 2 1 screen-IsFb (omega arith) (omega arith)

fb_fill_rect-Filled_example : Filled 1 1 2 2 0xFFFFFF screen (fb_fill_rect 1 1 2 2 0xFFFFFF screen)
fb_fill_rect-Filled_example =
    fb_fill_rect-Filled 1 1 2 2 0xFFFFFF screen screen-IsFb (omega arith) (omega arith)

-- The loader's tag at 500, for the frame buffer above.
abbrev screen_bytes : Bytes
screen_bytes a =
    get_or
      (8 ∷ 0 ∷ 0 ∷ 0 ∷ 32 ∷ 0 ∷ 0 ∷ 0 ∷ 0 ∷ 0x10 ∷ 0 ∷ 0 ∷ 0 ∷ 0 ∷ 0 ∷ 0 ∷ 16 ∷ 0 ∷ 0 ∷ 0 ∷ 4 ∷ 0
        ∷ 0 ∷ 0 ∷ 4 ∷ 0 ∷ 0 ∷ 0 ∷ 32 ∷ [])
      (a - 500) 0
