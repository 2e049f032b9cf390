-- ===== src/Paging/Init.antt =====
-- paging_init of drivers/paging.c: the map of the memory that the boot loader passes.
use neko_os_c.Prelude.{
  ℕ, zero, suc, ◌+◌, ◌-◌, ◌^◌, true, false, ◌==◌, ltb, if◌then◌else◌, u64, clear_low, Run, ok,
  panic, out_of_fuel, ◌>>=◌, List, [], ◌∷◌, ◌++◌,
}
use neko_os_c.Mem.{Bytes, word32, word64}
use neko_os_c.Multiboot.Tags.{
  tag_type, tag_size, next_tag, first_tag, total_size, mb2_tag_end, mb2_tag_mmap,
}
use neko_os_c.Paging.{
  Pages, alloc_page_table, map_region_2mb, paging_switch, page_writable, pool_size,
}

-- The fields of mb2_mmap_entry_t and of mb2_tag_mmap_t.
abbrev pub base_addr : Bytes → ℕ → ℕ
base_addr m entry = word64 m entry

abbrev pub area_length : Bytes → ℕ → ℕ
area_length m entry = word64 m (entry + 8)

abbrev pub area_type : Bytes → ℕ → ℕ
area_type m entry = word32 m (entry + 16)

abbrev pub entry_size : Bytes → ℕ → ℕ
entry_size m tag = word32 m (tag + 8)

abbrev pub first_entry : ℕ → ℕ
first_entry tag = tag + 16

-- A region that is logged and mapped.
pub record Area : Type 0 where
  pub base : ℕ
  pub limit : ℕ
  pub size : ℕ

abbrev pub usable_area : Bytes → ℕ → Area
usable_area m entry =
    let base = clear_low 21 (base_addr m entry) in
    let limit = clear_low 21 (u64 (base_addr m entry + area_length m entry + 0x1FFFFF)) in
    record { base = base; limit = limit; size = u64 (limit + 2 ^ 64 - base) }

-- The state, and the regions whose line has been logged, the earliest first.
pub record Progress : Type 0 where
  pub pages : Pages
  pub logged : List Area

unfoldable pub map_area : Area → Pages → Run Pages
map_area a p = map_region_2mb p.pml4 a.base a.base a.size page_writable p

unfoldable pub map_entry : Bytes → ℕ → Progress → Run Progress
unfolding map_area
map_entry m entry g =
    let a = usable_area m entry in
    if area_type m entry == 1
    then (map_area a g.pages >>= λ q. ok (record { pages = q; logged = g.logged ++ (a ∷ []) }))
    else ok g

-- `fuel` bounds the rounds of the two loops.
unfoldable pub entries_from : (fuel entry end step : ℕ) → Bytes → Progress → Run Progress
unfolding map_entry
entries_from zero entry end step m g = if ltb entry end then out_of_fuel else ok g
entries_from (suc fuel) entry end step m g = elim (ltb entry end) [
  | true ↦ map_entry m entry g >>= entries_from fuel (entry + step) end step m
  | false ↦ ok g
]

unfoldable pub map_tag : Bytes → ℕ → Progress → Run Progress
unfolding entries_from
map_tag m tag g =
    if tag_type m tag == mb2_tag_mmap
    then entries_from (tag_size m tag) (first_entry tag) (tag + tag_size m tag) (entry_size m tag) m
        g
    else ok g

unfoldable pub tags_from : (fuel tag : ℕ) → Bytes → Progress → Run Progress
unfolding map_tag
tags_from zero tag m g = if tag_type m tag == mb2_tag_end then ok g else out_of_fuel
tags_from (suc fuel) tag m g = elim (tag_type m tag == mb2_tag_end) [
  | true ↦ ok g
  | false ↦ map_tag m tag g >>= tags_from fuel (next_tag m tag) m
]

-- The addresses of ld_kernel_start and ld_kernel_end.
pub record Image : Type 0 where
  pub ld_kernel_start : ℕ
  pub ld_kernel_end : ℕ

-- The low memory, and the kernel: the size of each is rounded up to 2 MiB.
abbrev pub low_area : Area
low_area = record { base = 0; limit = 0x200000; size = 0x200000 }

abbrev pub kernel_area : Image → Area
kernel_area image =
    let kernel_size =
      clear_low 21 (u64 (u64 (image.ld_kernel_end + 2 ^ 64 - image.ld_kernel_start) + 0x1FFFFF)) in
    let map_size = clear_low 21 (u64 (u64 (kernel_size + pool_size) + 0x1FFFFF)) in
    record {
      base = image.ld_kernel_start;
      limit = image.ld_kernel_start + map_size;
      size = map_size;
    }

-- The structures of the loader are read in `m`, and the tables lie elsewhere.
unfoldable pub paging_init : Image → Bytes → (info : ℕ) → Pages → Run Progress
unfolding map_area tags_from
paging_init image m info p =
    if p.pml4 == 0
    then (alloc_page_table p >>= λ (table, q).
        map_area low_area (record q { pml4 = table }) >>= λ r.
        map_area (kernel_area image) r >>= λ s.
        tags_from (total_size m info) (first_tag info) m (record { pages = s; logged = [] })
        >>= λ g. ok (record g { pages = paging_switch g.pages.pml4 g.pages }))
    else panic
