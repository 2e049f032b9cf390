-- ===== src/Descriptors.antt =====
-- drivers/gdt.c and drivers/idt.c: the segment descriptors and the interrupt gates.
pub mod Segments
pub mod Gates
mod Witness
use neko_os_c.Prelude.{
  ℕ, zero, suc, ◌+◌, ◌-◌, ◌^◌, ◌==◌, if◌then◌else◌, u8, u32, bit_and, bit_or, ◌<<<◌, ◌>>>◌, List,
  [], ◌∷◌,
}

-- gdt_entry_t.
pub record GdtEntry : Type 0 where
  pub limit_low : ℕ
  pub base_low : ℕ
  pub base_mid : ℕ
  pub access : ℕ
  pub granularity : ℕ
  pub base_high : ℕ

-- gdt_t; the high half of the TSS descriptor is its only two fields.
pub record Gdt : Type 0 where
  pub null : GdtEntry
  pub kernel_code : GdtEntry
  pub kernel_data : GdtEntry
  pub tss_low : GdtEntry
  pub tss_base_high : ℕ
  pub tss_reserved : ℕ

unfoldable pub gdt_set_entry : (base limit access granularity : ℕ) → GdtEntry
gdt_set_entry base limit access granularity = record {
  limit_low = bit_and limit 0xFFFF;
  base_low = bit_and base 0xFFFF;
  base_mid = bit_and (base >>> 16) 0xFF;
  access = access;
  granularity = bit_or (bit_and granularity 0xF0) (bit_and (limit >>> 16) 0x0F);
  base_high = bit_and (base >>> 24) 0xFF;
}

unfoldable pub gdt_set_tss : (base limit : ℕ) → Gdt → Gdt
gdt_set_tss base limit g = record g {
  tss_low = gdt_set_entry (u32 base) limit 0x89 0x00;
  tss_base_high = u32 (base >>> 32);
  tss_reserved = 0;
}

-- sizeof(tss_t), which is packed.
abbrev pub tss_size : ℕ
tss_size = 104

-- gdt_init up to the instructions that load the table. `tss` is where the linker places the TSS.
unfoldable pub gdt_init : (tss : ℕ) → Gdt → Gdt
unfolding gdt_set_tss
gdt_init tss g = gdt_set_tss tss (tss_size - 1) (record g {
  null = gdt_set_entry 0 0 0 0;
  kernel_code = gdt_set_entry 0 0xFFFFF 0x9A 0xA0;
  kernel_data = gdt_set_entry 0 0xFFFFF 0x92 0xC0;
})

-- idt_entry_t.
pub record IdtEntry : Type 0 where
  pub offset_low : ℕ
  pub selector : ℕ
  pub ist : ℕ
  pub flags : ℕ
  pub offset_mid : ℕ
  pub offset_high : ℕ
  pub reserved : ℕ

-- The 256 entries by vector.
abbrev pub Idt : Type 0
Idt = ℕ → IdtEntry

-- The vector is a uint8_t.
unfoldable pub idt_set_entry : (vector handler flags : ℕ) → Idt → Idt
idt_set_entry vector handler flags idt v =
    if v == u8 vector
    then record {
      offset_low = bit_and handler 0xFFFF;
      selector = 0x08;
      ist = 0;
      flags = flags;
      offset_mid = bit_and (handler >>> 16) 0xFFFF;
      offset_high = bit_and (handler >>> 32) 0xFFFFFFFF;
      reserved = 0;
    }
    else idt v

-- The loop over the exception handlers, from the vector `i` on.
unfoldable pub set_entries : (i : ℕ) → List ℕ → Idt → Idt
set_entries i [] idt = idt
set_entries i (h ∷ handlers) idt = set_entries (suc i) handlers (idt_set_entry i h 0x8E idt)

-- idt_init up to the instruction that loads the table. `handlers` are the addresses of isr0 to isr31.
unfoldable pub idt_init : (handlers : List ℕ) → (isr_timer isr_spurious : ℕ) → Idt → Idt
unfolding set_entries idt_set_entry
idt_init handlers isr_timer isr_spurious idt =
    idt_set_entry 0xFF isr_spurious 0x8E
      (idt_set_entry 0x20 isr_timer 0x8E (set_entries 0 handlers idt))
