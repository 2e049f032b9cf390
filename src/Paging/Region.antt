-- ===== src/Paging/Region.antt =====
-- map_region_4kb and map_region_2mb of drivers/paging.c: one page after the other.
use neko_os_c.Prelude.{
  ℕ, zero, suc, ◌+◌, ◌-◌, ◌*◌, ◌/◌, ◌%◌, ◌^◌, ◌≤◌, ◌<◌, ◌≡◌, ◌⊎◌, inl, inr, refl, ap, ◌∙◌, true,
  false, ok, panic, Run, ◌>>=◌, then_ok, then_panic, arith, u64, bit_or, some, lt→ltb,
}
use mathlib.Core.Path.{subst⁻¹, subst₂}
use native.Mathlib.Nat.{suc-mul}
use neko_os_c.Paging.{
  Pages, map_page_4kb, map_page_2mb, region_4kb, region_2mb, map_region_2mb, page_present,
  page_huge,
}
use neko_os_c.Paging.Mapping.{Tables, Mapped}
use neko_os_c.Paging.Maps.{Outcome, map_page_2mb-Mapped}
use neko_os_c.Paging.Walk.{span, walk}

-- From `p` to `q` the `n` pages of level `l` from the one at `virt` on are mapped to those from `phys`
-- on, and no other address changes.
pub record Region (p : Pages) (root used l virt phys flags n : ℕ) (q : Pages) : Type 0 where
  pub now_used : ℕ
  pub grew : now_used + n * l ≤ used + n * 3
  pub kept_used : used ≤ now_used
  pub tables : Tables q root now_used
  pub same_root : (q.pml4 ≡ p.pml4) × (q.pool ≡ p.pool)
  pub covered :
      (v j : ℕ)
      → v < 2 ^ 48
      → j < n
      → v / span l ≡ virt / span l + j
      → walk 4 q.words root v
        ≡ some
            (record { phys = (phys / span l + j) * span l + v % span l; level = l; flags = flags })
  pub elsewhere :
      (v : ℕ)
      → v < 2 ^ 48
      → (v / span l < virt / span l) ⊎ (virt / span l + n ≤ v / span l)
      → walk 4 q.words root v ≡ walk 4 p.words root v

abbrev pub RegionOutcome : (p : Pages) (root used l virt phys flags n : ℕ) → Run Pages → Type 0
RegionOutcome p root used l virt phys flags n r =
    ((r ≡ panic) × (33 + n * l ≤ used + n * 3))
    ⊎ ((q : Pages) × (r ≡ ok q) × Region p root used l virt phys flags n q)

next_page : (l x : ℕ) → l ≤ 1 → (x + span l) / span l ≡ suc (x / span l)
next_page zero x low = omega arith
next_page (suc zero) x low = omega arith
next_page (suc (suc l)) x low = absurd (omega (arith, low))

pub nil-Region :
    (p : Pages) (root used : ℕ) (t : Tables p root used) (l virt phys flags : ℕ)
    → Region p root used l virt phys flags 0 p
nil-Region p root used t l virt phys flags = record {
  now_used = used;
  grew = omega arith;
  kept_used = omega arith;
  tables = t;
  same_root = (refl, refl);
  covered = λ v j small none here. absurd (omega (arith, none));
  elsewhere = λ v small other. refl;
}

cons-Region :
    (p : Pages) (root used l virt phys flags n : ℕ) (q q' : Pages)
    (m : Mapped p root used l virt phys flags q)
    → l ≤ 1
    → Region q root m.now_used l (virt + span l) (phys + span l) flags n q'
    → Region p root used l virt phys flags (suc n) q'
cons-Region p root used l virt phys flags n q q' m low r =
    let next = next_page l virt low in
    let next_phys = next_page l phys low in
    record {
      now_used = r.now_used;
      grew = omega (arith, m.grew, r.grew, suc-mul n l, suc-mul n 3);
      kept_used = omega (arith, m.kept_used, r.kept_used);
      tables = r.tables;
      same_root = (r.same_root.0 ∙ m.same_root.0, r.same_root.1 ∙ m.same_root.1);
      covered = λ v j small.
          elim j
            as (λ i.
              i < suc n
              → v / span l ≡ virt / span l + i
              → walk 4 q'.words root v
                ≡ some (record {
                  phys = (phys / span l + i) * span l + v % span l;
                  level = l;
                  flags = flags;
                })) [
                  | zero ↦ λ less here.
                      r.elsewhere v small (inl (omega (arith, here, next)))
                      ∙ m.here v (omega (arith, here))
                      ∙ ap
                          (λ b.
                            some
                              (record { phys = b * span l + v % span l; level = l; flags = flags }))
                          (omega arith)
                  | suc i ↦ λ less here.
                      r.covered v i small (omega (arith, less)) (omega (arith, here, next))
                      ∙ ap
                          (λ b.
                            some
                              (record { phys = b * span l + v % span l; level = l; flags = flags }))
                          (omega (arith, next_phys))
                ];
      elsewhere = λ v small other.
          r.elsewhere v small (elim other [
            | inl before ↦ inl (omega (arith, before, next))
            | inr behind ↦ inr (omega (arith, behind, next))
          ])
          ∙ m.elsewhere v small (λ same. elim other [
            | inl before ↦ absurd (omega (arith, before, same))
            | inr behind ↦ absurd (omega (arith, behind, same))
          ]);
    }

costs : (l n : ℕ) → l ≤ 1 → n * l ≤ n * 3
costs zero n low = omega arith
costs (suc zero) n low = omega arith
costs (suc (suc l)) n low = absurd (omega (arith, low))

-- One page, and the pages that follow it.
pub cons-RegionOutcome :
    (p : Pages) (root used l virt phys flags n : ℕ) (r : Run Pages) (k : Pages → Run Pages)
    → l ≤ 1
    → Outcome p root used l virt phys flags r
    → ((q : Pages) (m : Mapped p root used l virt phys flags q)
        → RegionOutcome q root m.now_used l (virt + span l) (phys + span l) flags n (k q))
    → RegionOutcome p root used l virt phys flags (suc n) (r >>= k)
cons-RegionOutcome p root used l virt phys flags n r k low (inl (stops, full)) rest =
    inl (then_panic r k stops, omega (arith, full, costs l n low, suc-mul n l, suc-mul n 3))
cons-RegionOutcome p root used l virt phys flags n r k low (inr (q, goes, m)) rest =
    elim (rest q m) [
      | inl (stops, full) ↦
          inl (then_ok r q k goes ∙ stops, omega (arith, full, m.grew, suc-mul n l, suc-mul n 3))
      | inr (q', ends, region) ↦ inr (
        q',
        then_ok r q k goes ∙ ends,
        cons-Region p root used l virt phys flags n q q' m low region,
      )
    ]

-- The number of pages that a region begins, whose sums with an address do not wrap.
abbrev pub Fits : (span virt phys size : ℕ) → Type 0
Fits span virt phys size = (virt + size ≤ 2 ^ 48 - span) × (phys + size ≤ 2 ^ 52 - span)

step_2mb :
    (n offset root virt phys size flags : ℕ) (p : Pages)
    → offset < size
    → Fits (2 ^ 21) virt phys size
    → region_2mb (suc n) offset root virt phys size flags p ≡ (
        map_page_2mb root (virt + offset) (phys + offset) flags p
        >>= region_2mb n (offset + 2 ^ 21) root virt phys size flags)
unfolding region_2mb
step_2mb n offset root virt phys size flags p more (lv, lp) =
    let wv : u64 (virt + offset) ≡ virt + offset = omega (arith, more, lv) in
    let wp : u64 (phys + offset) ≡ phys + offset = omega (arith, more, lp) in
    let wo : u64 (offset + 2 ^ 21) ≡ offset + 2 ^ 21 = omega (arith, more, lv) in
    let goes =
      λ (v f o : ℕ). map_page_2mb root v f flags p >>= region_2mb n o root virt phys size flags in
    ap
      (λ b. elim b [
        | true ↦ goes (u64 (virt + offset)) (u64 (phys + offset)) (u64 (offset + 2 ^ 21))
        | false ↦ ok p
      ])
      (lt→ltb offset size more)
    ∙ ap (λ v. goes v (u64 (phys + offset)) (u64 (offset + 2 ^ 21))) wv
    ∙ ap (λ f. goes (virt + offset) f (u64 (offset + 2 ^ 21))) wp
    ∙ ap (goes (virt + offset) (phys + offset)) wo

pub step_4kb :
    (n offset root virt phys size flags : ℕ) (p : Pages)
    → offset < size
    → Fits (2 ^ 12) virt phys size
    → region_4kb (suc n) offset root virt phys size flags p ≡ (
        map_page_4kb root (virt + offset) (phys + offset) flags p
        >>= region_4kb n (offset + 2 ^ 12) root virt phys size flags)
unfolding region_4kb
step_4kb n offset root virt phys size flags p more (lv, lp) =
    let wv : u64 (virt + offset) ≡ virt + offset = omega (arith, more, lv) in
    let wp : u64 (phys + offset) ≡ phys + offset = omega (arith, more, lp) in
    let wo : u64 (offset + 2 ^ 12) ≡ offset + 2 ^ 12 = omega (arith, more, lv) in
    let goes =
      λ (v f o : ℕ). map_page_4kb root v f flags p >>= region_4kb n o root virt phys size flags in
    ap
      (λ b. elim b [
        | true ↦ goes (u64 (virt + offset)) (u64 (phys + offset)) (u64 (offset + 2 ^ 12))
        | false ↦ ok p
      ])
      (lt→ltb offset size more)
    ∙ ap (λ v. goes v (u64 (phys + offset)) (u64 (offset + 2 ^ 12))) wv
    ∙ ap (λ f. goes (virt + offset) f (u64 (offset + 2 ^ 12))) wp
    ∙ ap (goes (virt + offset) (phys + offset)) wo

-- The loops with `n` pages to go.
loop_2mb :
    (n offset : ℕ) (p : Pages) (root used : ℕ) (t : Tables p root used) (virt phys size flags : ℕ)
    → offset + 2 ^ 21 * n ≡ (size + 0x1FFFFF) / 2 ^ 21 * 2 ^ 21
    → Fits (2 ^ 21) virt phys size
    → flags < 2 ^ 12
    → RegionOutcome p root used 1
        (virt + offset)
        (phys + offset)
        (bit_or (bit_or flags page_present) page_huge)
        n
        (region_2mb n offset root virt phys size flags p)
loop_2mb zero offset p root used t virt phys size flags count fits lf = inr (
  p,
  unfold region_2mb in ground (arith, count),
  nil-Region p root used t 1 (virt + offset) (phys + offset) _,
)
loop_2mb (suc n) offset p root used t virt phys size flags count fits lf =
    let (lv, lp) = fits in
    let more : offset < size = omega (arith, count) in
    subst⁻¹
      (RegionOutcome p root used 1 (virt + offset) (phys + offset)
        (bit_or (bit_or flags page_present) page_huge) (suc n))
      (step_2mb n offset root virt phys size flags p more fits)
      (cons-RegionOutcome p root used 1 (virt + offset) (phys + offset)
        (bit_or (bit_or flags page_present) page_huge) n _ _ (omega arith)
        (map_page_2mb-Mapped p root used t (virt + offset) (phys + offset) flags
          (omega (arith, lv, more)) (omega (arith, lp, more)) lf)
        (λ q m.
          subst₂
            (λ v f.
              RegionOutcome q root m.now_used 1 v f (bit_or (bit_or flags page_present) page_huge) n
                (region_2mb n (offset + 2 ^ 21) root virt phys size flags q))
            (omega arith) (omega arith)
            (loop_2mb n (offset + 2 ^ 21) q root m.now_used m.tables virt phys size flags
              (omega (arith, count)) fits lf)))

-- map_region_2mb, on a tree of tables, for a region that ends 2 MiB below the highest addresses the
-- processor translates, ends after one round for each 2 MiB that the size begins: the pages from `virt`
-- on are mapped to those from `phys` on, huge, present and with the flags given, and every other address
-- is translated as before. It panics only when the free tables are less than two for each page.
pub map_region_2mb-Region :
    (p : Pages) (root used : ℕ) (t : Tables p root used) (virt phys size flags : ℕ)
    → Fits (2 ^ 21) virt phys size
    → flags < 2 ^ 12
    → RegionOutcome p root used 1 virt phys
        (bit_or (bit_or flags page_present) page_huge)
        ((size + 0x1FFFFF) / 2 ^ 21)
        (map_region_2mb root virt phys size flags p)
unfolding map_region_2mb
map_region_2mb-Region p root used t virt phys size flags fits lf =
    let n = (size + 0x1FFFFF) / 2 ^ 21 in
    subst₂
      (λ v f.
        RegionOutcome p root used 1 v f (bit_or (bit_or flags page_present) page_huge) n
          (region_2mb n 0 root virt phys size flags p))
      (omega arith) (omega arith)
      (loop_2mb n 0 p root used t virt phys size flags (omega arith) fits lf)
