-- ===== src/Alloc/Kfree.antt =====
-- lib/alloc.c: kfree marks a block and joins free neighbours, as a function of the list of blocks.
use neko_os_c.Prelude.{
  ℕ, zero, suc, ◌+◌, ◌-◌, ◌^◌, ◌≤◌, ◌<◌, ◌≡◌, refl, sym, ap, ◌∙◌, Bool, true, false, ◌&&◌, not,
  some, List, [], ◌∷◌, arith, ◌==◌, if◌then◌else◌, length, u64, Run, ok, Bool-cases, inl, inr,
}
use neko_os_c.Alloc.{
  header_size, heap_magic, Block, block, Headers, put, Heap, rounds, coalesce_loop, kfree,
}
use neko_os_c.Alloc.Cells.{
  Cell, cell, head_addr, Linked, Tiles, IsHeap, cell_at, Tiles-le, Linked-put_below, rounds_enough,
}

-- The block at `a`, freed.
unfoldable pub mark : ℕ → List Cell → List Cell
mark a [] = []
mark a (c ∷ cs) = if c.addr == a then cell c.addr c.size true ∷ cs else c ∷ mark a cs

abbrev pub merged : Cell → Cell → Cell
merged c d = cell c.addr (c.size + (header_size + d.size)) c.free

-- `c` joined with the free blocks behind it, and so on down the list.
unfoldable pub join : Cell → List Cell → List Cell
join c [] = c ∷ []
join c (d ∷ cs) = elim (c.free && d.free) [ true ↦ join (merged c d) cs | false ↦ c ∷ join d cs ]

unfoldable pub coalesce : List Cell → List Cell
unfolding join
coalesce [] = []
coalesce (c ∷ cs) = join c cs

mark-Tiles : (a p end : ℕ) (cs : List Cell) → Tiles p end cs → Tiles p end (mark a cs)
unfolding mark
mark-Tiles a p end [] t = t
mark-Tiles a p end (c ∷ cs) t = elim (Bool-cases (c.addr == a)) [
  | inl here ↦ rw here t
  | inr other ↦ rw other (t.0, mark-Tiles a (p + header_size + c.size) end cs t.1)
]

head_addr-mark : (a : ℕ) (cs : List Cell) → head_addr (mark a cs) ≡ head_addr cs
unfolding mark
head_addr-mark a [] = refl
head_addr-mark a (c ∷ cs) = ground arith

length-mark : (a : ℕ) (cs : List Cell) → length (mark a cs) ≡ length cs
unfolding mark
length-mark a [] = refl
length-mark a (c ∷ cs) = ground (arith, length-mark a cs)

abbrev freed : Headers → ℕ → Headers
freed m a = put m a (record (m a) { free = true })

mark-Linked :
    (a p end : ℕ) (m : Headers) (cs : List Cell)
    → Tiles p end cs
    → Linked m cs
    → Linked (freed m a) (mark a cs)
unfolding mark put
mark-Linked a p end m [] t l = tt
mark-Linked a p end m (c ∷ cs) t l = elim (Bool-cases (c.addr == a)) [
  | inl here ↦ rw here (
    ground arith,
    Linked-put_below m a _ (p + header_size + c.size) end cs (ground arith) t.1 l.1,
  )
  | inr other ↦
      rw (other, head_addr-mark a cs)
        (rw other l.0, mark-Linked a (p + header_size + c.size) end m cs t.1 l.1)
]

-- The headers after the block at `p`, whose header is `b`, has taken in the one behind it.
abbrev pub joined : Headers → ℕ → Block → Headers
joined m p b =
    put m p
      (record b { size = u64 (b.size + (header_size + (m b.next).size)); next = (m b.next).next })

abbrev pub joins : Headers → Block → Bool
joins m b = b.free && (not (b.next == 0) && (m b.next).free)

-- A round of the loop.
module _ (f p : ℕ) (m : Headers) (b : Block) (nonnull : (p == 0) ≡ false) (at : m p ≡ b) where
  pub coalesce_loop-join :
      joins m b ≡ true → coalesce_loop (suc f) p m ≡ coalesce_loop f p (joined m p b)
  unfolding coalesce_loop
  coalesce_loop-join hit =
      rw (coalesce_loop, nonnull, at, hit) (ap (λ (c : Block). coalesce_loop f p (joined m p c)) at)

  pub coalesce_loop-step : joins m b ≡ false → coalesce_loop (suc f) p m ≡ coalesce_loop f b.next m
  unfolding coalesce_loop
  coalesce_loop-step miss =
      rw (coalesce_loop, nonnull, at, miss) (ap (λ (c : Block). coalesce_loop f c.next m) at)

-- What the loop leaves, from the block `c` on.
record Joined (p end : ℕ) (m : Headers) (ds : List Cell) (r : Run Headers) : Type 0 where
  after : Headers
  run : r ≡ ok after
  linked : Linked after ds
  tiles : Tiles p end ds
  below : (q : ℕ) → q < p → after q ≡ m q

module _ (c d : Cell) (cs : List Cell) where
  pub join-both : (c.free && d.free) ≡ true → join c (d ∷ cs) ≡ join (merged c d) cs
  unfolding join
  join-both both = rw (join, both)

  pub join-apart : (c.free && d.free) ≡ false → join c (d ∷ cs) ≡ c ∷ join d cs
  unfolding join
  join-apart apart = rw (join, apart)

head_addr-join : (c : Cell) (cs : List Cell) → head_addr (join c cs) ≡ c.addr
head_addr-join c [] = unfold join in refl
head_addr-join c (d ∷ cs) = elim (Bool-cases (c.free && d.free)) [
  | inl both ↦ rw (join-both c d cs both) (head_addr-join (merged c d) cs)
  | inr apart ↦ rw (join-apart c d cs apart)
]

coalesce_loop_lem :
    (f p end : ℕ) (m : Headers) (c : Cell) (cs : List Cell)
    → length cs + 1 < f
    → 0 < p
    → end + 8 ≤ 2 ^ 64
    → Tiles p end (c ∷ cs)
    → Linked m (c ∷ cs)
    → Joined p end m (join c cs) (coalesce_loop f c.addr m)
coalesce_loop_lem zero p end m c cs fuel pos bound t l = absurd (omega arith)
coalesce_loop_lem (suc zero) p end m c cs fuel pos bound t l = absurd (omega arith)
coalesce_loop_lem (suc (suc f)) p end m c [] fuel pos bound t l = record {
  after = m;
  run =
      coalesce_loop-step (suc f) c.addr m _ (ground arith) l.0 (ground arith)
      ∙ unfold coalesce_loop in refl;
  linked = unfold join in l;
  tiles = unfold join in t;
  below = λ q lt. refl;
}
coalesce_loop_lem (suc (suc f)) p end m c (d ∷ cs) fuel pos bound t l =
    elim (Bool-cases (c.free && d.free)) [
      | inl both ↦
          let b : Block = block c.size d.addr c.free in
          let hit : joins m b ≡ true = rw l.1.0 (ground arith) in
          let eq : joined m c.addr b
              ≡ put m c.addr (block (merged c d).size (head_addr cs) c.free) =
            rw l.1.0 (
              ap (λ (n : ℕ). put m c.addr (block n (head_addr cs) c.free)) (omega (arith, room))) in
          let rest =
            coalesce_loop_lem (suc f) p end
              (put m c.addr (block (merged c d).size (head_addr cs) c.free)) (merged c d) cs
              (omega arith) pos bound
              (
                t.0,
                let e : p + header_size + (merged c d).size
                        ≡ p + header_size + c.size + header_size + d.size =
                      omega arith in
                    rw e t.1.1,
              )
              (
                unfold put in ground arith,
                Linked-put_below m c.addr _ (p + header_size + c.size + header_size + d.size) end cs
                    (omega arith) t.1.1 l.1.1,
              ) in
          rw (join-both c d cs both) record {
            after = rest.after;
            run = coalesce_loop-join (suc f) c.addr m b nonnull l.0 hit ∙ rw eq rest.run;
            linked = rest.linked;
            tiles = rest.tiles;
            below = λ q lt. rest.below q lt ∙ (unfold put in ground arith);
          }
      | inr apart ↦
          let b : Block = block c.size d.addr c.free in
          let miss : joins m b ≡ false = rw l.1.0 (ground arith) in
          let rest =
            coalesce_loop_lem (suc f) (p + header_size + c.size) end m d cs (omega arith)
              (omega arith) bound t.1 l.1 in
          rw (join-apart c d cs apart) record {
            after = rest.after;
            run = coalesce_loop-step (suc f) c.addr m b nonnull l.0 miss ∙ rest.run;
            linked =
                (rw (head_addr-join d cs) (rest.below c.addr (omega arith) ∙ l.0), rest.linked);
            tiles = (t.0, rest.tiles);
            below = λ q lt. rest.below q (omega arith);
          }
    ]
  where
    nonnull : (c.addr == 0) ≡ false
    nonnull = ground arith

    room : p + header_size + c.size + header_size + d.size ≤ end
    room = Tiles-le (p + header_size + c.size + header_size + d.size) end cs t.1.1

coalesce_loop-coalesce :
    (f p end : ℕ) (m : Headers) (cs : List Cell)
    → length cs < f
    → 0 < p
    → end + 8 ≤ 2 ^ 64
    → Tiles p end cs
    → Linked m cs
    → Joined p end m (coalesce cs) (coalesce_loop f (head_addr cs) m)
unfolding coalesce
coalesce_loop-coalesce zero p end m cs fuel pos bound t l = absurd (omega arith)
coalesce_loop-coalesce (suc f) p end m [] fuel pos bound t l = record {
  after = m;
  run = unfold coalesce_loop in refl;
  linked = l;
  tiles = t;
  below = λ q lt. refl;
}
coalesce_loop-coalesce (suc f) p end m (c ∷ cs) fuel pos bound t l =
    coalesce_loop_lem (suc f) p end m c cs (omega arith) pos bound t l

pub head_addr-coalesce : (cs : List Cell) → head_addr (coalesce cs) ≡ head_addr cs
unfolding coalesce
head_addr-coalesce [] = refl
head_addr-coalesce (c ∷ cs) = head_addr-join c cs

-- Where a block stands, its header says so.
pub cell_at-header :
    (a p end : ℕ) (m : Headers) (cs : List Cell) (c : Cell)
    → Tiles p end cs
    → Linked m cs
    → cell_at a cs ≡ some c
    → ((m a).magic ≡ heap_magic) × (p ≤ a) × (a + header_size ≤ end)
cell_at-header a p end m [] c t l e = absurd (cc)
cell_at-header a p end m (d ∷ cs) c t l e = elim (Bool-cases (d.addr == a)) [
  | inl here ↦
      let same : d.addr ≡ a = ground arith in
      (rw (← same, l.0), omega arith, omega (arith, Tiles-le (p + header_size + d.size) end cs t.1))
  | inr other ↦
      let (magic, low, high) =
        cell_at-header a (p + header_size + d.size) end m cs c t.1 l.1 (rw other at e) in
      (magic, omega arith, high)
]

kfree-run :
    (a : ℕ) (h : Heap) (m : Headers)
    → a + header_size < 2 ^ 64
    → (h.headers a).magic ≡ heap_magic
    → coalesce_loop (suc (rounds h)) h.start (freed h.headers a) ≡ ok m
    → kfree (a + header_size) h ≡ ok (record h { headers = m })
unfolding kfree
kfree-run a h m small magic run =
    let back : u64 (a + header_size + 2 ^ 64 - header_size) ≡ a = omega arith in
    let nonnull : (a + header_size == 0) ≡ false = ground arith in
    let found : ((h.headers a).magic == heap_magic) ≡ true = rw magic in
    rw (nonnull, back, found, run)

-- kfree of the pointer to a block of a well-formed heap marks the block free and joins free
-- neighbours, and leaves a well-formed heap; the rounds suffice.
pub kfree-coalesce :
    (a : ℕ) (h : Heap) (cs : List Cell) (c : Cell)
    → IsHeap h cs
    → cell_at a cs ≡ some c
    → (h' : Heap) × (kfree (a + header_size) h ≡ ok h')
      × IsHeap h' (coalesce (mark a cs))
      × (h'.bytes ≡ h.bytes)
kfree-coalesce a h cs c is e =
    let (magic, low, high) =
      cell_at-header a h.start (h.start + h.total) h.headers cs c is.tiles is.linked e in
    let done =
      coalesce_loop-coalesce (suc (rounds h)) h.start (h.start + h.total) (freed h.headers a)
        (mark a cs) (omega (arith, rounds_enough h cs is, length-mark a cs)) is.positive is.bounded
        (mark-Tiles a h.start (h.start + h.total) cs is.tiles)
        (mark-Linked a h.start (h.start + h.total) h.headers cs is.tiles is.linked) in
    let start : h.start ≡ head_addr (mark a cs) = is.first ∙ sym (head_addr-mark a cs) in
    let run : coalesce_loop (suc (rounds h)) h.start (freed h.headers a) ≡ ok done.after =
      ap (λ (s : ℕ). coalesce_loop (suc (rounds h)) s (freed h.headers a)) start ∙ done.run in
    (
      record h { headers = done.after },
      kfree-run a h done.after (let bound = is.bounded in omega arith) magic run,
      record {
        linked = done.linked;
        tiles = done.tiles;
        first = start ∙ sym (head_addr-coalesce (mark a cs));
        positive = is.positive;
        bounded = is.bounded;
      },
      refl,
    )
