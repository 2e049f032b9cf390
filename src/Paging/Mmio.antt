-- ===== src/Paging/Mmio.antt =====
-- paging_map_mmio and paging_map_mmio_region of drivers/paging.c: the pages of a device.
use neko_os_c.Prelude.{
  ℕ, zero, suc, ◌+◌, ◌-◌, ◌*◌, ◌/◌, ◌^◌, ◌≤◌, ◌<◌, ◌≡◌, ◌⊎◌, inl, inr, sym, ap, ◌∙◌, ok, panic, Run,
  arith, bit_or, some,
}
use mathlib.Core.Path.{subst, subst⁻¹, subst₂}
use neko_os_c.Paging.{
  Pages, region_4kb, map_region_4kb, paging_map_mmio, paging_map_mmio_region, page_present,
  page_writable, page_cache_disable, page_base, pages_size,
}
use neko_os_c.Paging.Mapping.{Tables, Mapped}
use neko_os_c.Paging.Maps.{map_page_4kb-Mapped}
use neko_os_c.Paging.Region.{RegionOutcome, Region, Fits, step_4kb, cons-RegionOutcome, nil-Region}
use neko_os_c.Paging.Walk.{Page, walk}

-- No huge page is mapped in the pages of 4 KiB that a size begins.
abbrev pub NoHuge : (p : Pages) (root virt n : ℕ) → Type 0
NoHuge p root virt n =
    (v : ℕ) (g : Page)
    → virt / 4096 ≤ v / 4096
    → v / 4096 < virt / 4096 + n
    → walk 4 p.words root v ≡ some g
    → g.level ≡ 0

-- The pages behind the one that is mapped are as before.
rest-NoHuge :
    (p : Pages) (root used virt phys flags n : ℕ) (q : Pages)
    → virt + 4096 * suc n ≤ 2 ^ 48
    → NoHuge p root virt (suc n)
    → Mapped p root used 0 virt phys flags q
    → NoHuge q root (virt + 4096) n
rest-NoHuge p root used virt phys flags n q top none m v g from to found =
    none v g (omega (arith, from)) (omega (arith, to)) (
      sym (m.elsewhere v (omega (arith, top, to)) (λ same. absurd (omega (arith, same, from))))
      ∙ found)

loop_4kb :
    (n offset : ℕ) (p : Pages) (root used : ℕ) (t : Tables p root used) (virt phys size flags : ℕ)
    → offset + 2 ^ 12 * n ≡ (size + 0xFFF) / 2 ^ 12 * 2 ^ 12
    → Fits (2 ^ 12) virt phys size
    → flags < 2 ^ 12
    → NoHuge p root (virt + offset) n
    → RegionOutcome p root used 0
        (virt + offset)
        (phys + offset)
        (bit_or flags page_present)
        n
        (region_4kb n offset root virt phys size flags p)
loop_4kb zero offset p root used t virt phys size flags count fits lf none = inr (
  p,
  unfold region_4kb in ground (arith, count),
  nil-Region p root used t 0 (virt + offset) (phys + offset) _,
)
loop_4kb (suc n) offset p root used t virt phys size flags count fits lf none =
    let (lv, lp) = fits in
    let more : offset < size = omega (arith, count) in
    subst⁻¹
      (RegionOutcome p root used 0 (virt + offset) (phys + offset) (bit_or flags page_present)
        (suc n))
      (step_4kb n offset root virt phys size flags p more fits)
      (cons-RegionOutcome p root used 0 (virt + offset) (phys + offset) (bit_or flags page_present)
        n _ _ (omega arith)
        (map_page_4kb-Mapped p root used t (virt + offset) (phys + offset) flags
          (omega (arith, lv, more)) (omega (arith, lp, more)) lf
          (λ g. none (virt + offset) g (omega arith) (omega arith)))
        (λ q m.
          subst₂
            (λ v f.
              RegionOutcome q root m.now_used 0 v f (bit_or flags page_present) n
                (region_4kb n (offset + 2 ^ 12) root virt phys size flags q))
            (omega arith) (omega arith)
            (loop_4kb n (offset + 2 ^ 12) q root m.now_used m.tables virt phys size flags
              (omega (arith, count)) fits lf
              (subst⁻¹ (λ v. NoHuge q root v n) (omega arith)
                (rest-NoHuge p root used (virt + offset) (phys + offset) _ n q
                  (omega (arith, lv, count)) none m)))))

-- map_region_4kb, on a tree of tables, for a region that ends 4 KiB below the highest addresses the
-- processor translates and in which no huge page is mapped, ends after one round for each 4 KiB that the
-- size begins: the pages from `virt` on are mapped to those from `phys` on, present and with the flags
-- given, and every other address is translated as before. It panics only when the free tables are less
-- than three for each page.
pub map_region_4kb-Region :
    (p : Pages) (root used : ℕ) (t : Tables p root used) (virt phys size flags : ℕ)
    → Fits (2 ^ 12) virt phys size
    → flags < 2 ^ 12
    → NoHuge p root virt ((size + 0xFFF) / 2 ^ 12)
    → RegionOutcome p root used 0 virt phys
        (bit_or flags page_present)
        ((size + 0xFFF) / 2 ^ 12)
        (map_region_4kb root virt phys size flags p)
unfolding map_region_4kb
map_region_4kb-Region p root used t virt phys size flags fits lf none =
    let n = (size + 0xFFF) / 2 ^ 12 in
    subst₂
      (λ v f.
        RegionOutcome p root used 0 v f (bit_or flags page_present) n
          (region_4kb n 0 root virt phys size flags p))
      (omega arith) (omega arith)
      (loop_4kb n 0 p root used t virt phys size flags (omega arith) fits lf
        (subst⁻¹ (λ v. NoHuge p root v n) (omega arith) none))

-- From `p` to `q` a device's range of addresses is mapped to itself, and the pages that it does not
-- touch are translated as before.
pub record Served (p : Pages) (used addr size flags : ℕ) (q : Pages) : Type 0 where
  pub now_used : ℕ
  pub tables : Tables q q.pml4 now_used
  pub same_root : q.pml4 ≡ p.pml4
  pub serves :
      (v : ℕ)
      → addr ≤ v
      → v < addr + size
      → walk 4 q.words q.pml4 v ≡ some (record { phys = v; level = 0; flags = flags })
  pub elsewhere :
      (v : ℕ)
      → v < 2 ^ 48
      → (v / 4096 < addr / 4096) ⊎ (addr + size + 4095 ≤ v)
      → walk 4 q.words q.pml4 v ≡ walk 4 p.words q.pml4 v

-- The number of pages that a range of addresses touches.
abbrev pub touched : (addr size : ℕ) → ℕ
touched addr size = (addr + size + 0xFFF) / 4096 - addr / 4096

abbrev pub ServedOutcome : (p : Pages) (used addr size flags : ℕ) → Run Pages → Type 0
ServedOutcome p used addr size flags r =
    ((r ≡ panic) × (33 ≤ used + touched addr size * 3))
    ⊎ ((q : Pages) × (r ≡ ok q) × Served p used addr size flags q)

touched_is :
    (addr size : ℕ)
    → addr + size ≤ 2 ^ 48 - 2 ^ 13
    → (pages_size addr size ≡ touched addr size * 4096)
      × ((pages_size addr size + 0xFFF) / 2 ^ 12 ≡ touched addr size)
touched_is addr size top = (omega (arith, top), omega (arith, top))

Region-Served :
    (p : Pages) (used : ℕ) (addr size flags : ℕ) (q : Pages)
    → addr + size ≤ 2 ^ 48 - 2 ^ 13
    → Region p p.pml4 used 0 (page_base addr) (page_base addr) flags (touched addr size) q
    → Served p used addr size flags q
Region-Served p used addr size flags q top r =
    let (root, _) = r.same_root in
    record {
      now_used = r.now_used;
      tables = subst⁻¹ (λ a. Tables q a r.now_used) root r.tables;
      same_root = root;
      serves = λ v from to.
          ap (λ a. walk 4 q.words a v) root
          ∙ r.covered v (v / 4096 - addr / 4096) (omega (arith, to, top)) (omega (arith, from, to))
              (omega (arith, from))
          ∙ ap (λ a. some (record { phys = a; level = 0; flags = flags })) (omega (arith, from));
      elsewhere = λ v small other.
          ap (λ a. walk 4 q.words a v) root
          ∙ r.elsewhere v small (elim other [
            | inl before ↦ inl (omega (arith, before))
            | inr behind ↦ inr (omega (arith, behind))
          ])
          ∙ sym (ap (λ a. walk 4 p.words a v) root);
    }

mmio-Served :
    (p : Pages) (used : ℕ) (t : Tables p p.pml4 used) (addr size flags : ℕ)
    → addr + size ≤ 2 ^ 48 - 2 ^ 13
    → flags < 2 ^ 12
    → NoHuge p p.pml4 (page_base addr) (touched addr size)
    → ServedOutcome p used addr size
        (bit_or flags page_present)
        (map_region_4kb p.pml4 (page_base addr) (page_base addr) (pages_size addr size) flags p)
mmio-Served p used t addr size flags top lf none =
    let (bytes, pages) = touched_is addr size top in
    elim (subst
      (λ n.
        RegionOutcome p p.pml4 used 0 (page_base addr) (page_base addr) (bit_or flags page_present)
          n
          (map_region_4kb p.pml4 (page_base addr) (page_base addr) (pages_size addr size) flags p))
      pages
      (map_region_4kb-Region p p.pml4 used t (page_base addr) (page_base addr)
        (pages_size addr size) flags (omega (arith, bytes, top), omega (arith, bytes, top)) lf
        (subst⁻¹ (NoHuge p p.pml4 (page_base addr)) pages none))) [
          | inl (stops, full) ↦ inl (stops, omega (arith, full))
          | inr (q, ends, region) ↦ inr (q, ends, Region-Served p used addr size _ q top region)
        ]

-- paging_map_mmio, on a tree of tables, for a range below the highest addresses the processor translates
-- that no huge page touches, maps every address of the range to itself, present and writable, and leaves
-- the translation of the pages that the range does not touch. It panics only when the free tables are
-- less than three for each page that the range touches.
pub paging_map_mmio-Served :
    (p : Pages) (used : ℕ) (t : Tables p p.pml4 used) (addr size : ℕ)
    → addr + size ≤ 2 ^ 48 - 2 ^ 13
    → NoHuge p p.pml4 (page_base addr) (touched addr size)
    → ServedOutcome p used addr size
        (bit_or page_writable page_present)
        (paging_map_mmio addr size p)
unfolding paging_map_mmio
paging_map_mmio-Served p used t addr size top none =
    mmio-Served p used t addr size page_writable top (omega arith) none

pub paging_map_mmio_region-Served :
    (p : Pages) (used : ℕ) (t : Tables p p.pml4 used) (phys size : ℕ)
    → phys + size ≤ 2 ^ 48 - 2 ^ 13
    → NoHuge p p.pml4 (page_base phys) (touched phys size)
    → ServedOutcome p used phys size
        (bit_or (bit_or page_writable page_cache_disable) page_present)
        (paging_map_mmio_region phys size p)
unfolding paging_map_mmio_region
paging_map_mmio_region-Served p used t phys size top none =
    mmio-Served p used t phys size (bit_or page_writable page_cache_disable) top (omega arith) none
