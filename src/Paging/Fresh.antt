-- ===== src/Paging/Fresh.antt =====
-- An empty top table, the first state of drivers/paging.c that translates.
use neko_os_c.Prelude.{ℕ, refl, sym, ◌∙◌, arith}
use neko_os_c.Paging.{Pages}
use neko_os_c.Paging.Agree.{walk-none}
use neko_os_c.Paging.Mapping.{Tables}
use neko_os_c.Paging.Mmio.{NoHuge}
use neko_os_c.Paging.Tree.{unused}

-- One table, which is empty.
abbrev pub fresh_pages : Pages
fresh_pages = record {
  pool = 0x200000;
  pool_offset = 4096;
  words = λ a. 0;
  pml4 = 0x200000;
  cr3 = 0;
}

pub fresh-Tables : Tables fresh_pages 0x200000 1
fresh-Tables = record {
  shape = record { level = λ k. 4; prefix = λ k. 0 };
  tree = record {
    used = 1;
    offset_is = refl;
    fits = omega arith;
    aligned = refl;
    addressed = omega arith;
    links = λ k i l lk li lev. unused refl;
  };
  count = refl;
  nth = 0;
  within = omega arith;
  is_nth = refl;
  level_is = refl;
  prefix_is = refl;
}

pub fresh-NoHuge : (virt n : ℕ) → NoHuge fresh_pages 0x200000 virt n
fresh-NoHuge virt n v g from to found =
    absurd (ground (arith, sym (walk-none 3 fresh_pages.words 0x200000 v refl) ∙ found))
