-- ===== src/Descriptors/Segments.antt =====
-- drivers/gdt.c: the segments that the processor reads in the descriptors.
use neko_os_c.Prelude.{
  ℕ, zero, suc, ◌+◌, ◌-◌, ◌*◌, ◌/◌, ◌%◌, ◌^◌, ◌<◌, ◌≡◌, ◌≢◌, ◌⊎◌, inl, inr, refl, ap, ◌∙◌, Bool,
  true, false, ◌&&◌, ◌==◌, bit_and, bit_or, ◌>>>◌, bit_or_fields, bit_and_mask, arith, u32,
}
use neko_os_c.Descriptors.{GdtEntry, Gdt, gdt_set_entry, gdt_init, tss_size}

-- The base and the limit that the fields of a descriptor spell, and the flags above the limit.
abbrev pub base_of : GdtEntry → ℕ
base_of e = e.base_low + e.base_mid * 2 ^ 16 + e.base_high * 2 ^ 24

abbrev pub limit_of : GdtEntry → ℕ
limit_of e = e.limit_low + e.granularity % 16 * 2 ^ 16

abbrev pub flags_of : GdtEntry → ℕ
flags_of e = e.granularity / 16

-- A test of every number below a bound.
abbrev all_below : (ℕ → Bool) → ℕ → Bool
all_below test zero = true
all_below test (suc n) = test n && all_below test n

both_true : (a b : Bool) → (a && b) ≡ true → (a ≡ true) × (b ≡ true)
both_true true b e = (refl, e)
both_true false b e = absurd (false_ne e)
  where
    false_ne : false ≢ true
    false_ne e = ground arith

last_or_below : (i n : ℕ) → i < suc n → (i ≡ n) ⊎ (i < n)
last_or_below i n low = ground arith

all_below-true : (test : ℕ → Bool) (n i : ℕ) → all_below test n ≡ true → i < n → test i ≡ true
all_below-true test zero i all low = absurd (omega arith)
all_below-true test (suc n) i all low = elim (last_or_below i n low) [
  | inl last ↦ ap test last ∙ (both_true (test n) (all_below test n) all).0
  | inr below ↦ all_below-true test n i (both_true (test n) (all_below test n) all).1 below
]

high_nibble : (g : ℕ) → g < 256 → bit_and g 0xF0 ≡ g / 16 * 16
high_nibble g low =
    eq_of (bit_and g 0xF0) (g / 16 * 16)
      (all_below-true (λ n. bit_and n 0xF0 == n / 16 * 16) 256 g refl low)
  where
    eq_of : (a b : ℕ) → (a == b) ≡ true → a ≡ b
    eq_of a b e = ground arith

granularity_is :
    (limit g : ℕ)
    → g < 256
    → bit_or (bit_and g 0xF0) (bit_and (limit >>> 16) 0x0F) ≡ g / 16 * 16 + limit / 2 ^ 16 % 16
granularity_is limit g low =
    ap (λ h. bit_or h (bit_and (limit >>> 16) 0x0F)) (high_nibble g low)
    ∙ ap (λ l. bit_or (g / 16 * 16) l) (bit_and_mask 4 (limit >>> 16))
    ∙ bit_or_fields 4 (g / 16) (limit / 2 ^ 16 % 16) (omega arith)

-- The processor reads back the base and the limit that gdt_set_entry is given, and the flags in the
-- high half of the granularity, for a base of 32 bits, a limit of 20 bits and a granularity of a byte.
pub gdt_set_entry_lem :
    (base limit access granularity : ℕ)
    → base < 2 ^ 32
    → limit < 2 ^ 20
    → granularity < 256
    → (base_of (gdt_set_entry base limit access granularity) ≡ base)
      × ((limit_of (gdt_set_entry base limit access granularity) ≡ limit)
          × (flags_of (gdt_set_entry base limit access granularity) ≡ granularity / 16))
unfolding gdt_set_entry
gdt_set_entry_lem base limit access granularity lb ll lg = (
  omega (arith, bit_and_mask 16 base, bit_and_mask 8 (base >>> 16), bit_and_mask 8 (base >>> 24)),
  (
    omega (arith, bit_and_mask 16 limit, granularity_is limit granularity lg),
    omega (arith, granularity_is limit granularity lg),
  ),
)

-- The base of a TSS descriptor is that of its low half with the word above.
abbrev pub tss_base_of : Gdt → ℕ
tss_base_of g = base_of g.tss_low + g.tss_base_high * 2 ^ 32

-- gdt_init leaves a TSS descriptor whose base is the TSS, at an address of 64 bits, and whose limit is
-- its last byte, code and data of the largest limit, the code with the flags 0xA, and a null descriptor
-- of base and limit 0.
pub gdt_init_lem :
    (tss : ℕ) (g : Gdt)
    → tss < 2 ^ 64
    → (tss_base_of (gdt_init tss g) ≡ tss)
      × ((limit_of (gdt_init tss g).tss_low ≡ tss_size - 1)
          × ((limit_of (gdt_init tss g).kernel_code ≡ 0xFFFFF)
              × ((flags_of (gdt_init tss g).kernel_code ≡ 0xA)
                  × ((limit_of (gdt_init tss g).kernel_data ≡ 0xFFFFF)
                      × (base_of (gdt_init tss g).null + limit_of (gdt_init tss g).null ≡ 0)))))
unfolding gdt_init
gdt_init_lem tss g low =
    let (b, (l, f)) =
      gdt_set_entry_lem (u32 tss) (tss_size - 1) 0x89 0x00 (omega arith) (omega arith)
        (omega arith) in
    let (b1, (l1, f1)) =
      gdt_set_entry_lem 0 0xFFFFF 0x9A 0xA0 (omega arith) (omega arith) (omega arith) in
    let (b2, (l2, f2)) =
      gdt_set_entry_lem 0 0xFFFFF 0x92 0xC0 (omega arith) (omega arith) (omega arith) in
    let (b0, (l0, f0)) = gdt_set_entry_lem 0 0 0 0 (omega arith) (omega arith) (omega arith) in
    (omega (arith, b), (l, (l1, (f1, (l2, omega (arith, b0, l0))))))
