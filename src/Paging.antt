-- ===== src/Paging.antt =====
-- drivers/paging.c: the page tables, from a pool of thirty-two, and the mappings written in them.
pub mod Walk
pub mod Tree
pub mod Agree
pub mod Write
pub mod Link
pub mod Next
pub mod Way
pub mod Mapping
pub mod Maps
pub mod Region
pub mod Mmio
pub mod Fresh
pub mod Init
pub mod Areas
pub mod Identity
pub mod Boot
mod Witness
use neko_os_c.Prelude.{
  ℕ, zero, suc, ◌+◌, ◌-◌, ◌*◌, ◌/◌, ◌%◌, ◌^◌, true, false, ◌==◌, ltb, if◌then◌else◌, u64, clear_low,
  bit_and, bit_or, ◌>>>◌, Run, ok, panic, out_of_fuel, ◌>>=◌,
}
use neko_os_c.Mem.{poke}
use neko_os_c.Mem.Copy.{within}

-- PAGE_PRESENT, PAGE_WRITABLE, PAGE_CACHE_DISABLE and PAGE_HUGE.
abbrev pub page_present : ℕ
page_present = 2 ^ 0

abbrev pub page_writable : ℕ
page_writable = 2 ^ 1

abbrev pub page_cache_disable : ℕ
page_cache_disable = 2 ^ 4

abbrev pub page_huge : ℕ
page_huge = 2 ^ 7

-- sizeof(page_table_t) and sizeof(page_table_pool).
abbrev pub table_size : ℕ
table_size = 4096

abbrev pub pool_size : ℕ
pool_size = 4096 * 32

-- The static variables: `pool` is the address of page_table_pool, and `words` holds the 64-bit entry at
-- each address; `pml4` is g_pml4, 0 when it is null. `cr3` is the processor's register.
pub record Pages : Type 0 where
  pub pool : ℕ
  pub pool_offset : ℕ
  pub words : ℕ → ℕ
  pub pml4 : ℕ
  pub cr3 : ℕ

-- The new table and the state with it.
unfoldable pub alloc_page_table : Pages → Run (ℕ × Pages)
alloc_page_table p =
    let table = p.pool + p.pool_offset in
    if ltb pool_size (p.pool_offset + table_size)
    then panic
    else ok (
      table,
      record p {
        pool_offset = p.pool_offset + table_size;
        words = λ a. if within table table_size a then 0 else p.words a;
      },
    )

-- `&table->entries[idx]`
abbrev pub entry_at : (table idx : ℕ) → ℕ
entry_at table idx = table + 8 * idx

unfoldable pub link_table : ℕ → Pages → Run Pages
unfolding poke
link_table entry p = alloc_page_table p >>= λ (table, q).
    ok (record q { words = poke q.words entry (bit_or (bit_or table page_present) page_writable) })

-- The table that an entry refers to, which is allocated when the entry is not present.
unfoldable pub next_table : (table idx : ℕ) → Pages → Run (ℕ × Pages)
next_table table idx p =
    let entry = entry_at table idx in
    let linked = if bit_and (p.words entry) page_present == 0 then link_table entry p else ok p in
    linked >>= λ q. ok (clear_low 12 (q.words entry), q)

unfoldable pub map_page_4kb : (pml4 virt phys flags : ℕ) → Pages → Run Pages
unfolding poke
map_page_4kb pml4 virt phys flags p =
    let pml4_idx = (virt >>> 39) % 512 in
    let pdpt_idx = (virt >>> 30) % 512 in
    let pd_idx = (virt >>> 21) % 512 in
    let pt_idx = (virt >>> 12) % 512 in
    next_table pml4 pml4_idx p >>= λ (pdpt, p1). next_table pdpt pdpt_idx p1 >>= λ (pd, p2).
    next_table pd pd_idx p2 >>= λ (pt, p3). ok (record p3 {
      words =
          poke p3.words (entry_at pt pt_idx)
            (bit_or (bit_or (clear_low 12 phys) flags) page_present);
    })

unfoldable pub map_page_2mb : (pml4 virt phys flags : ℕ) → Pages → Run Pages
unfolding poke
map_page_2mb pml4 virt phys flags p =
    let pml4_idx = (virt >>> 39) % 512 in
    let pdpt_idx = (virt >>> 30) % 512 in
    let pd_idx = (virt >>> 21) % 512 in
    next_table pml4 pml4_idx p >>= λ (pdpt, p1). next_table pdpt pdpt_idx p1 >>= λ (pd, p2).
    ok (record p2 {
      words =
          poke p2.words (entry_at pd pd_idx)
            (bit_or (bit_or (bit_or (clear_low 21 phys) flags) page_present) page_huge);
    })

-- `fuel` bounds the rounds of the loop, whose offset wraps on uint64_t.
unfoldable pub region_4kb : (fuel offset pml4 virt phys size flags : ℕ) → Pages → Run Pages
region_4kb zero offset pml4 virt phys size flags p = if ltb offset size then out_of_fuel else ok p
region_4kb (suc fuel) offset pml4 virt phys size flags p = elim (ltb offset size) [
  | true ↦
      map_page_4kb pml4 (u64 (virt + offset)) (u64 (phys + offset)) flags p
      >>= region_4kb fuel (u64 (offset + 0x1000)) pml4 virt phys size flags
  | false ↦ ok p
]

unfoldable pub region_2mb : (fuel offset pml4 virt phys size flags : ℕ) → Pages → Run Pages
region_2mb zero offset pml4 virt phys size flags p = if ltb offset size then out_of_fuel else ok p
region_2mb (suc fuel) offset pml4 virt phys size flags p = elim (ltb offset size) [
  | true ↦
      map_page_2mb pml4 (u64 (virt + offset)) (u64 (phys + offset)) flags p
      >>= region_2mb fuel (u64 (offset + 0x200000)) pml4 virt phys size flags
  | false ↦ ok p
]

-- One round for each page that the size begins.
unfoldable pub map_region_4kb : (pml4 virt phys size flags : ℕ) → Pages → Run Pages
map_region_4kb pml4 virt phys size flags p =
    region_4kb ((size + 0xFFF) / 0x1000) 0 pml4 virt phys size flags p

unfoldable pub map_region_2mb : (pml4 virt phys size flags : ℕ) → Pages → Run Pages
map_region_2mb pml4 virt phys size flags p =
    region_2mb ((size + 0x1FFFFF) / 0x200000) 0 pml4 virt phys size flags p

unfoldable pub paging_switch : ℕ → Pages → Pages
paging_switch pml4 p = record p { cr3 = pml4 }

-- The base and the size of the pages that a range of addresses touches.
abbrev pub page_base : ℕ → ℕ
page_base addr = clear_low 12 addr

abbrev pub pages_size : (addr size : ℕ) → ℕ
pages_size addr size = u64 (clear_low 12 (u64 (addr + size + 0xFFF)) + 2 ^ 64 - page_base addr)

unfoldable pub paging_map_mmio : (addr size : ℕ) → Pages → Run Pages
unfolding map_region_4kb
paging_map_mmio addr size p =
    map_region_4kb p.pml4 (page_base addr) (page_base addr) (pages_size addr size) page_writable p

unfoldable pub paging_map_mmio_region : (phys size : ℕ) → Pages → Run Pages
unfolding map_region_4kb
paging_map_mmio_region phys size p =
    map_region_4kb p.pml4 (page_base phys) (page_base phys) (pages_size phys size)
      (bit_or page_writable page_cache_disable) p
