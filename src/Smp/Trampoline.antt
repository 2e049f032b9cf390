-- ===== src/Smp/Trampoline.antt =====
-- The code of drivers/ap_trampoline.nasm, which smp_init of drivers/smp.c copies and patches.
use neko_os_c.Prelude.{
  ℕ, zero, suc, ◌+◌, ◌-◌, ◌/◌, ◌%◌, ◌^◌, ◌≤◌, ◌<◌, ◌≡◌, sym, ap, ◌∙◌, ◌⊎◌, inr, u32, ◌>>>◌, bit_and,
  arith,
}
use neko_os_c.Mem.{Bytes, poke, word16, word32, word64}

-- The addresses of the labels, and of the place that the code is copied to.
pub record Labels : Type 0 where
  pub load : ℕ
  pub start : ℕ
  pub stop : ℕ
  pub pm : ℕ
  pub pm_jmp : ℕ
  pub gdt : ℕ
  pub gdt_ptr : ℕ
  pub gdt64 : ℕ
  pub gdt64_ptr : ℕ
  pub pml4 : ℕ
  pub stack : ℕ
  pub entry : ℕ

-- Where a label stands in the copy.
abbrev pub loaded : Labels → ℕ → ℕ
loaded l label = l.load + (label - l.start)

-- An assignment of 32 or of 64 bits, lowest byte first.
unfoldable pub poke32 : (a v : ℕ) → Bytes → Bytes
unfolding poke
poke32 a v m =
    poke (poke (poke (poke m a (v % 256)) (a + 1) (v / 2 ^ 8 % 256)) (a + 2) (v / 2 ^ 16 % 256))
      (a + 3) (v / 2 ^ 24 % 256)

unfoldable pub poke64 : (a v : ℕ) → Bytes → Bytes
poke64 a v m = poke32 (a + 4) (v / 2 ^ 32) (poke32 a v m)

-- for (i = i0; i < i0 + n; i++) dst[i] = src[i]
unfoldable pub copy_code : (n i dst src : ℕ) → Bytes → Bytes
unfolding poke
copy_code zero i dst src m = m
copy_code (suc n) i dst src m = copy_code n (suc i) dst src (poke m (dst + i) (m (src + i)))

-- The far jump to the 32-bit code.
unfoldable pub patch_jump : (a target : ℕ) → Bytes → Bytes
unfolding poke
patch_jump a target m =
    poke
      (poke
        (poke (poke (poke m a 0xEA) (a + 1) (bit_and target 255)) (a + 2)
          (bit_and (target >>> 8) 255))
        (a + 3) 0x08)
      (a + 4) 0x00

-- smp_init up to the data area.
unfoldable pub prepare_trampoline : Labels → Bytes → Bytes
prepare_trampoline l m =
    let copied = copy_code (l.stop - l.start) 0 l.load l.start m in
    let gdt_patched = poke32 (loaded l l.gdt_ptr + 2) (u32 (loaded l l.gdt)) copied in
    let gdt64_patched = poke32 (loaded l l.gdt64_ptr + 2) (u32 (loaded l l.gdt64)) gdt_patched in
    patch_jump (loaded l l.pm_jmp) (u32 (loaded l l.pm)) gdt64_patched

-- The data that the loop of smp_init writes for a processor.
unfoldable pub patch_ap : Labels → (cr3 stack ap_main : ℕ) → Bytes → Bytes
patch_ap l cr3 stack ap_main m =
    poke64 (loaded l l.entry) ap_main
      (poke64 (loaded l l.stack) stack (poke32 (loaded l l.pml4) (u32 cr3) m))

-- `n` bytes at `a` and `k` bytes at `b` do not overlap.
abbrev pub Apart : (a n b k : ℕ) → Type 0
Apart a n b k = (a + n ≤ b) ⊎ (b + k ≤ a)

poke32_self : (a v : ℕ) (m : Bytes) → word32 (poke32 a v m) a ≡ u32 v
unfolding poke32 poke
poke32_self a v m = ground arith

poke32_byte : (a v x : ℕ) (m : Bytes) → Apart a 4 x 1 → poke32 a v m x ≡ m x
unfolding poke32 poke
poke32_byte a v x m apart = ground (arith, apart)

byte-Apart : (a b i : ℕ) → Apart a 4 b 4 → i < 4 → Apart a 4 (b + i) 1
byte-Apart a b i apart low = ground (arith, apart, low)

poke32_other : (a v b : ℕ) (m : Bytes) → Apart a 4 b 4 → word32 (poke32 a v m) b ≡ word32 m b
poke32_other a v b m apart =
    let byte = λ (i : ℕ) (low : i < 4). poke32_byte a v (b + i) m (byte-Apart a b i apart low) in
    let third : b + 2 + 1 ≡ b + 3 = omega arith in
    let last : poke32 a v m (b + 2 + 1) ≡ m (b + 2 + 1) =
      ap (poke32 a v m) third ∙ byte 3 (omega arith) ∙ ap m (sym third) in
    omega (
      arith,
      poke32_byte a v b m (ground (arith, apart)),
      byte 1 (omega arith),
      byte 2 (omega arith),
      last,
    )

poke64_self : (a v : ℕ) (m : Bytes) → v < 2 ^ 64 → word64 (poke64 a v m) a ≡ v
unfolding poke64
poke64_self a v m low = omega (
  arith,
  low,
  poke32_other (a + 4) (v / 2 ^ 32) a (poke32 a v m) (inr (omega arith)) ∙ poke32_self a v m,
  poke32_self (a + 4) (v / 2 ^ 32) (poke32 a v m),
)

poke64_other32 : (a v b : ℕ) (m : Bytes) → Apart a 8 b 4 → word32 (poke64 a v m) b ≡ word32 m b
unfolding poke64
poke64_other32 a v b m apart =
    poke32_other (a + 4) (v / 2 ^ 32) b (poke32 a v m) (ground (arith, apart))
    ∙ poke32_other a v b m (ground (arith, apart))

poke64_other : (a v b : ℕ) (m : Bytes) → Apart a 8 b 8 → word64 (poke64 a v m) b ≡ word64 m b
poke64_other a v b m apart = omega (
  arith,
  poke64_other32 a v b m (ground (arith, apart)),
  poke64_other32 a v (b + 4) m (ground (arith, apart)),
)

-- The fields that smp_init writes for a processor do not overlap.
pub record DataApart (l : Labels) : Type 0 where
  pub pml4_stack : Apart (loaded l l.stack) 8 (loaded l l.pml4) 4
  pub pml4_entry : Apart (loaded l l.entry) 8 (loaded l l.pml4) 4
  pub stack_entry : Apart (loaded l l.entry) 8 (loaded l l.stack) 8

-- The trampoline reads back the low 32 bits of the page table register, the stack and the address of
-- ap_main, where the three fields do not overlap.
pub patch_ap_lem :
    (l : Labels) (cr3 stack ap_main : ℕ) (m : Bytes)
    → DataApart l
    → stack < 2 ^ 64
    → ap_main < 2 ^ 64
    → (word32 (patch_ap l cr3 stack ap_main m) (loaded l l.pml4) ≡ u32 cr3)
      × (word64 (patch_ap l cr3 stack ap_main m) (loaded l l.stack) ≡ stack)
      × (word64 (patch_ap l cr3 stack ap_main m) (loaded l l.entry) ≡ ap_main)
unfolding patch_ap
patch_ap_lem l cr3 stack ap_main m apart ls la = (
  poke64_other32 (loaded l l.entry) ap_main (loaded l l.pml4) _ apart.pml4_entry
      ∙ poke64_other32 (loaded l l.stack) stack (loaded l l.pml4) _ apart.pml4_stack
      ∙ poke32_self (loaded l l.pml4) (u32 cr3) m
      ∙ omega arith,
  poke64_other (loaded l l.entry) ap_main (loaded l l.stack) _ apart.stack_entry
      ∙ poke64_self (loaded l l.stack) stack _ ls,
  poke64_self (loaded l l.entry) ap_main _ la,
)

-- The patched fields of the code do not overlap.
pub record CodeApart (l : Labels) : Type 0 where
  pub pointers : Apart (loaded l l.gdt64_ptr + 2) 4 (loaded l l.gdt_ptr + 2) 4
  pub jump_gdt : Apart (loaded l l.pm_jmp) 5 (loaded l l.gdt_ptr + 2) 4
  pub jump_gdt64 : Apart (loaded l l.pm_jmp) 5 (loaded l l.gdt64_ptr + 2) 4

-- A far jump: its opcode, the offset and the segment that the processor reads.
abbrev pub JumpsTo : (a segment offset : ℕ) → Bytes → Type 0
JumpsTo a segment offset m =
    (m a ≡ 0xEA) × (word16 m (a + 1) ≡ offset) × (word16 m (a + 3) ≡ segment)
