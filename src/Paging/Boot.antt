-- ===== src/Paging/Boot.antt =====
-- paging_init of drivers/paging.c, from the unused pool to the processor that uses the tables.
use neko_os_c.Prelude.{
  ℕ, ◌+◌, ◌*◌, ◌%◌, ◌^◌, ◌≤◌, ◌<◌, ◌≡◌, ◌⊎◌, refl, sym, ap, ◌∙◌, true, false, ◌==◌, if◌then◌else◌,
  if_true, if_false, ltb, Run, ok, panic, ◌>>=◌, bind_assoc, bind_cong, then_ok, then_panic, List,
  [], ◌∷◌, arith, inl, inr,
}
use neko_os_c.Mem.{Bytes}
use neko_os_c.Mem.Copy.{within}
use neko_os_c.Multiboot.Tags.{first_tag, total_size}
use neko_os_c.Paging.{Pages, pool_size, paging_switch, alloc_page_table, table_size}
use neko_os_c.Paging.Areas.{map_areas, Regions, tags-Regions}
use neko_os_c.Paging.Init.{
  Area, Progress, Image, map_area, low_area, kernel_area, paging_init, usable_area, base_addr,
  area_length,
}
use neko_os_c.Paging.Mapping.{Tables}
use neko_os_c.Paging.Tree.{unused}
use neko_os_c.Paging.Identity.{
  Identical, Within, Inside, first_area, later_area, AllFit, Covered, pages_of, map_areas-Covered,
}

-- The pool before paging_init: no table is used, and none of the variables is set.
pub record Unused (p : Pages) : Type 0 where
  pub pml4_null : p.pml4 ≡ 0
  pub nothing_used : p.pool_offset ≡ 0
  pub aligned : p.pool % 4096 ≡ 0
  pub addressed : p.pool + pool_size ≤ 2 ^ 52

abbrev first_pages : Pages → Pages
first_pages p = record p {
  pool_offset = p.pool_offset + table_size;
  words = λ a. if within (p.pool + p.pool_offset) table_size a then 0 else p.words a;
  pml4 = p.pool + p.pool_offset;
}

first_alloc :
    (p : Pages)
    → Unused p
    → alloc_page_table p ≡ ok (p.pool + p.pool_offset, record (first_pages p) { pml4 = p.pml4 })
unfolding alloc_page_table
first_alloc p fresh =
    let test : ltb pool_size (p.pool_offset + table_size) ≡ false =
      ground (arith, fresh.nothing_used) in
    if_false _ _ _ test

first-Tables : (p : Pages) → Unused p → Tables (first_pages p) (first_pages p).pml4 1
first-Tables p fresh = record {
  shape = record { level = λ k. 4; prefix = λ k. 0 };
  tree = record {
    used = 1;
    offset_is = omega (arith, fresh.nothing_used);
    fits = omega arith;
    aligned = fresh.aligned;
    addressed = fresh.addressed;
    links = λ k i l lk li lev. unused (ground (arith, lk, li, fresh.nothing_used));
  };
  count = refl;
  nth = 0;
  within = omega arith;
  is_nth = omega (arith, fresh.nothing_used);
  level_is = refl;
  prefix_is = refl;
}

-- The tags end within the size that the loader states.
pub record Loaded (m : Bytes) (info : ℕ) (xs : List Area) : Type 0 where
  pub fin : ℕ
  pub inside : fin ≤ info + total_size m info
  pub regions : Regions m fin (first_tag info) xs

abbrev pub boot_areas : Image → List Area → List Area
boot_areas image xs = low_area ∷ kernel_area image ∷ xs

-- The end of paging_init: the processor is given the tables.
abbrev finish : List Area → Pages → Run Progress
finish xs q = ok (record { pages = paging_switch q.pml4 q; logged = xs })

abbrev switched : Progress → Run Progress
switched g = ok (record g { pages = paging_switch g.pages.pml4 g.pages })

abbrev begun : Pages → Progress
begun s = record { pages = s; logged = [] }

paging_init-areas :
    (image : Image) (m : Bytes) (info : ℕ) (xs : List Area) (p : Pages)
    → Unused p
    → Loaded m info xs
    → paging_init image m info p ≡ (map_areas (boot_areas image xs) (first_pages p) >>= finish xs)
unfolding paging_init
paging_init-areas image m info xs p fresh loaded =
    let test : (p.pml4 == 0) ≡ true = ground (arith, fresh.pml4_null) in
    let ends = λ (s : Pages).
      ap (λ r. r >>= switched)
        (tags-Regions m loaded.fin (total_size m info) (first_tag info) xs (begun s) loaded.regions
          (omega (arith, loaded.inside)))
      ∙ bind_assoc (map_areas xs s) _ switched in
    if_true _ _ _ test
    ∙ then_ok _ _ _ (first_alloc p fresh)
    ∙ bind_cong (map_area low_area (first_pages p)) (λ r.
      bind_cong (map_area (kernel_area image) r) ends
      ∙ sym (bind_assoc (map_area (kernel_area image) r) (map_areas xs) (finish xs)))
    ∙ sym (
        bind_assoc (map_area low_area (first_pages p)) (map_areas (kernel_area image ∷ xs))
          (finish xs))

-- An address of a usable region of the loader's map, as the map gives it.
pub record InRegion (m : Bytes) (entry v : ℕ) : Type 0 where
  pub from_base : base_addr m entry ≤ v
  pub in_length : v < base_addr m entry + area_length m entry
  pub no_wrap : base_addr m entry + area_length m entry + 0x1FFFFF < 2 ^ 64
  pub translated : v < 2 ^ 48

pub record InImage (image : Image) (v : ℕ) : Type 0 where
  pub from_start : image.ld_kernel_start ≤ v
  pub before_end : v < image.ld_kernel_end
  pub translated : image.ld_kernel_end < 2 ^ 48

pub data Among (a : Area) : List Area → Type 0 where
  among_first : (xs : List Area) → Among a (a ∷ xs)
  among_later : (b : Area) (xs : List Area) → Among a xs → Among a (b ∷ xs)

InRegion-Within : (m : Bytes) (entry v : ℕ) → InRegion m entry v → Within (usable_area m entry) v
InRegion-Within m entry v r =
    (omega (arith, r.from_base), omega (arith, r.from_base, r.in_length, r.no_wrap), r.translated)

InImage-Within : (image : Image) (v : ℕ) → InImage image v → Within (kernel_area image) v
InImage-Within image v r = (
  omega (arith, r.from_start),
  omega (arith, r.from_start, r.before_end, r.translated),
  omega (arith, r.before_end, r.translated),
)

Among-Inside : (a : Area) (xs : List Area) (v : ℕ) → Within a v → Among a xs → Inside v xs
Among-Inside a _ v w (among_first xs) = first_area a xs w
Among-Inside a _ v w (among_later b xs r) = later_area b xs (Among-Inside a xs v w r)

-- From `p` to `g` the regions are mapped to themselves, and the processor uses the tables.
pub record Booted (m : Bytes) (p : Pages) (image : Image) (xs : List Area) (g : Progress)
    : Type 0 where
  pub used : ℕ
  pub grew : used ≤ 1 + pages_of (boot_areas image xs) * 2
  pub tables : Tables g.pages g.pages.cr3 used
  pub root_is : g.pages.cr3 ≡ g.pages.pml4
  pub covers : (v : ℕ) → Inside v (boot_areas image xs) → Identical g.pages v
  pub serves_image : (v : ℕ) → InImage image v → Identical g.pages v
  pub serves_regions :
      (entry v : ℕ) → Among (usable_area m entry) xs → InRegion m entry v → Identical g.pages v
  pub logged_are : g.logged ≡ xs

switch-Tables :
    (q : Pages) (used : ℕ) → Tables q q.pml4 used → Tables (paging_switch q.pml4 q) q.pml4 used
unfolding paging_switch
switch-Tables q used t = record {
  shape = t.shape;
  tree = record {
    used = t.tree.used;
    offset_is = t.tree.offset_is;
    fits = t.tree.fits;
    aligned = t.tree.aligned;
    addressed = t.tree.addressed;
    links = t.tree.links;
  };
  count = t.count;
  nth = t.nth;
  within = t.within;
  is_nth = t.is_nth;
  level_is = t.level_is;
  prefix_is = t.prefix_is;
}

switched-Booted :
    (m : Bytes) (p : Pages) (image : Image) (xs : List Area) (q : Pages)
    → Covered (first_pages p) 1 (boot_areas image xs) q
    → Booted m p image xs (record { pages = paging_switch q.pml4 q; logged = xs })
unfolding paging_switch
switched-Booted m p image xs q c = record {
  used = c.now_used;
  grew = c.grew;
  tables = switch-Tables q c.now_used c.tables;
  root_is = refl;
  covers = c.covers;
  serves_image = λ v r. c.covers v (later_area _ _ (first_area _ xs (InImage-Within image v r)));
  serves_regions = λ entry v here r. c.covers v (
      later_area _ _ (
        later_area _ _
          (Among-Inside (usable_area m entry) xs v (InRegion-Within m entry v r) here)));
  logged_are = refl;
}

-- paging_init, on an unused pool that the processor can address and for tags and memory maps that end,
-- where the low memory, the kernel and the usable regions lie 2 MiB below the highest addresses that the
-- processor translates, panics only when the free tables are less than two for each page of 2 MiB; else
-- cr3 holds the top of a tree of tables, every address in these pages is translated to itself, the
-- addresses of the kernel's image and of the usable regions of the memory maps among them, and a line
-- is logged for each usable region in their order.
pub paging_init-Booted :
    (image : Image) (m : Bytes) (info : ℕ) (xs : List Area) (p : Pages)
    → Unused p
    → Loaded m info xs
    → AllFit (boot_areas image xs)
    → ((paging_init image m info p ≡ panic) × (33 ≤ 1 + pages_of (boot_areas image xs) * 2))
      ⊎ ((g : Progress) × (paging_init image m info p ≡ ok g) × Booted m p image xs g)
paging_init-Booted image m info xs p fresh loaded fit =
    let runs = paging_init-areas image m info xs p fresh loaded in
    elim (map_areas-Covered (first_pages p) 1 (first-Tables p fresh) (boot_areas image xs) fit) [
      | inl (stops, full) ↦ inl (runs ∙ then_panic _ _ stops, full)
      | inr (q, goes, c) ↦ inr (
        record { pages = paging_switch q.pml4 q; logged = xs },
        runs ∙ then_ok _ _ _ goes,
        switched-Booted m p image xs q c,
      )
    ]
