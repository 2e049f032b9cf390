-- ===== src/Framebuffer/Setup.antt =====
-- fb_init of drivers/framebuffer.c: the frame buffer that the boot loader set up is mapped.
use neko_os_c.Prelude.{
  ℕ, ◌+◌, ◌-◌, ◌*◌, ◌^◌, ◌<◌, ◌≡◌, u32, u64, clear_low, Run, ok, ◌>>=◌, some, bit_or,
}
use neko_os_c.Framebuffer.{Fb}
use neko_os_c.Framebuffer.Pixels.{place}
use neko_os_c.Mem.{Bytes, word32, word64}
use neko_os_c.Paging.{
  Pages, paging_map_mmio_region, page_present, page_writable, page_cache_disable,
}
use neko_os_c.Paging.Walk.{walk}

-- The fields of mb2_tag_framebuffer_t; the memory of the pixels is as it was.
abbrev pub fb_of : Bytes → (tag : ℕ) → Fb → Fb
fb_of m tag fb = record {
  addr = word64 m (tag + 8);
  width = word32 m (tag + 20);
  height = word32 m (tag + 24);
  pitch = word32 m (tag + 16);
  bpp = m (tag + 28);
  bytes = fb.bytes;
}

-- The size is a product on uint32_t; the base and the end are rounded to pages.
abbrev pub fb_base : Fb → ℕ
fb_base fb = clear_low 12 fb.addr

abbrev pub fb_end : Fb → ℕ
fb_end fb = clear_low 12 (u64 (fb.addr + u32 (fb.pitch * fb.height) + 0xFFF))

unfoldable pub fb_init : Bytes → (tag : ℕ) → Fb → Pages → Run (Fb × Pages)
fb_init m tag fb0 p =
    let fb = fb_of m tag fb0 in
    paging_map_mmio_region (fb_base fb) (u64 (fb_end fb + 2 ^ 64 - fb_base fb)) p >>= λ q.
    ok (fb, q)

-- The bytes of the pages of the frame buffer.
abbrev pub fb_size : Fb → ℕ
fb_size fb = u64 (fb_end fb + 2 ^ 64 - fb_base fb)

-- Every byte of every pixel is translated to itself, uncached.
abbrev pub Visible : Fb → Pages → Type 0
Visible fb q =
    (x y i : ℕ)
    → x < fb.width
    → y < fb.height
    → i < 3
    → walk 4 q.words q.pml4 (place x y fb + i)
      ≡ some (record {
        phys = place x y fb + i;
        level = 0;
        flags = bit_or (bit_or page_writable page_cache_disable) page_present;
      })
