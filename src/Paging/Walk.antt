-- ===== src/Paging/Walk.antt =====
-- The translation that the processor makes through the tables of drivers/paging.c.
use neko_os_c.Prelude.{
  ℕ, zero, suc, ◌+◌, ◌*◌, ◌/◌, ◌%◌, ◌^◌, ◌≡◌, refl, true, ◌==◌, ◌||◌, if◌then◌else◌, Option, none,
  some, arith,
}
use neko_os_c.Paging.{entry_at}
use native.Mathlib.Nat.{div-div-eq-div-mul}

-- The bytes that an entry of a table translates, by the level of what it refers to: 4 KiB, 2 MiB, 1 GiB
-- and 512 GiB.
abbrev pub span : ℕ → ℕ
span zero = 4096
span (suc l) = span l * 512

abbrev pub index : (l v : ℕ) → ℕ
index l v = v / span l % 512

-- A translated address, the level of its page, and the flags of the entry.
pub record Page : Type 0 where
  pub phys : ℕ
  pub level : ℕ
  pub flags : ℕ

pub data Slot : Type 0 where
  absent : Slot
  page : Page → Slot
  table : ℕ → Slot

-- The address in an entry has 52 bits.
abbrev pub frame : ℕ → ℕ
frame e = e % 2 ^ 52 / 4096 * 4096

abbrev pub page_of : (l e v : ℕ) → Page
page_of l e v = record {
  phys = e % 2 ^ 52 / span l * span l + v % span l;
  level = l;
  flags = e % 4096;
}

-- Bit 0 of an entry is the present bit, and bit 7 ends the walk above the last level.
unfoldable pub read_entry : (l e v : ℕ) → Slot
read_entry l e v =
    if e % 2 == 0
    then absent
    else if l == 0 || e / 128 % 2 == 1
    then page (page_of l e v)
    else table (frame e)

abbrev pub follow : Slot → (ℕ → Option Page) → Option Page
follow absent f = none
follow (page g) f = some g
follow (table t) f = f t

-- The walk from a table of a level down, level 4 for the one that cr3 refers to.
unfoldable pub walk : (level : ℕ) → (words : ℕ → ℕ) → (table v : ℕ) → Option Page
unfolding read_entry
walk zero words t v = none
walk (suc l) words t v =
    follow (read_entry l (words (entry_at t (index l v))) v) (λ c. walk l words c v)

pub walk-suc :
    (l : ℕ) (words : ℕ → ℕ) (t v : ℕ)
    → walk (suc l) words t v
      ≡ follow (read_entry l (words (entry_at t (index l v))) v) (λ c. walk l words c v)
unfolding walk
walk-suc l words t v = refl

pub follow_cong :
    (s : Slot) (f g : ℕ → Option Page)
    → ((c : ℕ) → s ≡ table c → f c ≡ g c)
    → follow s f ≡ follow s g
follow_cong absent f g same = refl
follow_cong (page d) f g same = refl
follow_cong (table c) f g same = same c refl

-- An address in the pages of a level, by its page of the next level and its index.
pub index-span : (l v : ℕ) → v / span l ≡ v / span (suc l) * 512 + index l v
index-span l v = omega (arith, div-div-eq-div-mul v (span l) 512)

pub read_absent : (l e v : ℕ) → e % 2 ≡ 0 → read_entry l e v ≡ absent
unfolding read_entry
read_absent l e v off = ground (arith, off)

pub read_page :
    (l e v : ℕ)
    → e % 2 ≡ 1
    → (l == 0 || e / 128 % 2 == 1) ≡ true
    → read_entry l e v ≡ page (page_of l e v)
unfolding read_entry
read_page l e v on last = ground (arith, on, last)

pub read_table :
    (l e v : ℕ) → e % 2 ≡ 1 → e / 128 % 2 ≡ 0 → read_entry (suc l) e v ≡ table (frame e)
unfolding read_entry
read_table l e v on small = ground (arith, on, small)
