-- ===== src/Paging/Witness.antt =====
-- Tests of drivers/paging.c, and its theorems at concrete inputs.
use neko_os_c.Prelude.{
  List, [], ◌∷◌, get_or, ◌-◌, ◌+◌, ◌*◌, ◌≤◌, ◌⊎◌, ok, panic, refl, ◌≡◌, arith, bit_or,
}
use neko_os_c.Paging.{Pages, map_page_4kb, map_page_2mb, map_region_2mb, page_present, page_huge}
use neko_os_c.Mem.{Bytes}
use neko_os_c.Paging.Init.{Image, Area, Progress, paging_init}
use neko_os_c.Paging.Areas.{memory_map, ended, row, done}
use neko_os_c.Paging.Identity.{no_area, fits_too}
use neko_os_c.Paging.Boot.{Loaded, Booted, paging_init-Booted}
use neko_os_c.Paging.Fresh.{fresh_pages, fresh-Tables, fresh-NoHuge}
use neko_os_c.Paging.Maps.{Outcome, map_page_4kb-Mapped, map_page_2mb-Mapped}
use neko_os_c.Paging.Region.{RegionOutcome, map_region_2mb-Region}

map_page_4kb-Mapped_example :
    Outcome fresh_pages 0x200000 1 0 0xFEE00123 0xFEE00000
      (bit_or 2 page_present)
      (map_page_4kb 0x200000 0xFEE00123 0xFEE00000 2 fresh_pages)
map_page_4kb-Mapped_example =
    map_page_4kb-Mapped fresh_pages 0x200000 1 fresh-Tables 0xFEE00123 0xFEE00000 2 (omega arith)
      (omega arith) (omega arith)
      (λ g. fresh-NoHuge 0xFEE00123 1 0xFEE00123 g (omega arith) (omega arith))

map_page_2mb-Mapped_example :
    Outcome fresh_pages 0x200000 1 1 0x100000 0x100000
      (bit_or (bit_or 2 page_present) page_huge)
      (map_page_2mb 0x200000 0x100000 0x100000 2 fresh_pages)
map_page_2mb-Mapped_example =
    map_page_2mb-Mapped fresh_pages 0x200000 1 fresh-Tables 0x100000 0x100000 2 (omega arith)
      (omega arith) (omega arith)

map_region_2mb-Region_example :
    RegionOutcome fresh_pages 0x200000 1 1 0x100000 0x100000
      (bit_or (bit_or 2 page_present) page_huge)
      3
      (map_region_2mb 0x200000 0x100000 0x100000 0x400001 2 fresh_pages)
map_region_2mb-Region_example =
    map_region_2mb-Region fresh_pages 0x200000 1 fresh-Tables 0x100000 0x100000 0x400001 2
      (omega arith, omega arith) (omega arith)

-- The loader's structures at 4096: a memory map with the usable region of 2 MiB at 4 MiB.
abbrev loader_bytes : Bytes
loader_bytes a =
    get_or
      (56 ∷ 0 ∷ 0 ∷ 0 ∷ 0 ∷ 0 ∷ 0 ∷ 0 ∷ 6 ∷ 0 ∷ 0 ∷ 0 ∷ 40 ∷ 0 ∷ 0 ∷ 0 ∷ 24 ∷ 0 ∷ 0 ∷ 0 ∷ 0 ∷ 0 ∷ 0
        ∷ 0 ∷ 0 ∷ 0 ∷ 0x40 ∷ 0 ∷ 0 ∷ 0 ∷ 0 ∷ 0 ∷ 0 ∷ 0 ∷ 0x20 ∷ 0 ∷ 0 ∷ 0 ∷ 0 ∷ 0 ∷ 1 ∷ [])
      (a - 4096) 0

abbrev small_image : Image
small_image = record { ld_kernel_start = 0x100000; ld_kernel_end = 0x180000 }

abbrev one_area : List Area
one_area = record { base = 0x400000; limit = 0x600000; size = 0x200000 } ∷ []

abbrev unused_pages : Pages
unused_pages = record { pool = 0x140000; pool_offset = 0; words = λ a. 0; pml4 = 0; cr3 = 0 }

loader-Loaded : Loaded loader_bytes 4096 one_area
loader-Loaded = record {
  fin = 4144;
  inside = omega arith;
  regions =
      memory_map 4104 (4120 ∷ []) [] refl (omega arith) (omega arith)
        (row 4120 [] (omega arith) (done 4144 (omega arith))) (ended refl);
}

paging_init-Booted_example :
    ((paging_init small_image loader_bytes 4096 unused_pages ≡ panic) × (33 ≤ 1 + 4 * 2))
    ⊎ ((g : Progress) × (paging_init small_image loader_bytes 4096 unused_pages ≡ ok g)
        × Booted loader_bytes unused_pages small_image one_area g)
paging_init-Booted_example =
    paging_init-Booted small_image loader_bytes 4096 one_area unused_pages
      (record { pml4_null = refl; nothing_used = refl; aligned = refl; addressed = omega arith })
      loader-Loaded
      (fits_too _ _ (omega arith) (fits_too _ _ (omega arith) (fits_too _ _ (omega arith) no_area)))
