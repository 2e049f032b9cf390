-- ===== src/Multiboot/Tags.antt =====
-- The walk over the tags of boot/multiboot2.h: an item of 8 bytes at least, aligned to 8, until the type 0.
use neko_os_c.Prelude.{ℕ, ◌+◌, ◌≤◌, ◌<◌, ◌≡◌, ◌≢◌, u32, clear_low, arith, List, [], ◌∷◌}
use neko_os_c.Mem.{Bytes, word32}

abbrev pub mb2_tag_end : ℕ
mb2_tag_end = 0

abbrev pub mb2_tag_cmdline : ℕ
mb2_tag_cmdline = 1

abbrev pub mb2_tag_bootloader : ℕ
mb2_tag_bootloader = 2

abbrev pub mb2_tag_mmap : ℕ
mb2_tag_mmap = 6

abbrev pub mb2_tag_framebuffer : ℕ
mb2_tag_framebuffer = 8

abbrev pub mb2_tag_acpi_v1 : ℕ
mb2_tag_acpi_v1 = 14

abbrev pub mb2_tag_acpi_v2 : ℕ
mb2_tag_acpi_v2 = 15

-- mb2_info_t and mb2_tag_t.
abbrev pub total_size : Bytes → ℕ → ℕ
total_size m info = word32 m info

abbrev pub first_tag : ℕ → ℕ
first_tag info = info + 8

abbrev pub tag_type : Bytes → ℕ → ℕ
tag_type m tag = word32 m tag

abbrev pub tag_size : Bytes → ℕ → ℕ
tag_size m tag = word32 m (tag + 4)

-- `(uint8_t*)tag + ((tag->size + 7) & ~7)`, where the sum is on uint32_t.
abbrev pub next_tag : Bytes → ℕ → ℕ
next_tag m tag = tag + clear_low 3 (u32 (tag_size m tag + 7))

-- The tags from an address on, up to the end tag at `fin`: none of them is empty.
pub data Listed (m : Bytes) (fin : ℕ) : ℕ → List ℕ → Type 0 where
  ended : tag_type m fin ≡ mb2_tag_end → Listed m fin fin []
  followed :
      (tag : ℕ) (ts : List ℕ)
      → tag_type m tag ≢ mb2_tag_end
      → tag < next_tag m tag
      → Listed m fin (next_tag m tag) ts
      → Listed m fin tag (tag ∷ ts)

-- The tags lie within the size that the loader states.
pub record WithTags (m : Bytes) (info : ℕ) (ts : List ℕ) : Type 0 where
  pub fin : ℕ
  pub inside : fin ≤ info + total_size m info
  pub listed : Listed m fin (first_tag info) ts

pub Listed-le : (m : Bytes) (fin tag : ℕ) (ts : List ℕ) → Listed m fin tag ts → tag ≤ fin
Listed-le m fin tag [] (ended last) = omega arith
Listed-le m fin tag _ (followed _ ts more on rest) =
    omega (arith, on, Listed-le m fin (next_tag m tag) ts rest)
