-- ===== src/Descriptors/Witness.antt =====
-- drivers/gdt.c and drivers/idt.c: tables with handlers in the kernel's text.
use neko_os_c.Prelude.{ℕ, ◌^◌, ◌<◌, ◌≡◌, refl, some, List, arith, get_elem?, replicate}
use neko_os_c.Descriptors.{GdtEntry, Gdt, Idt, idt_init}
use neko_os_c.Descriptors.Gates.{Gate, idt_init-Gate}

abbrev empty : GdtEntry
empty = record {
  limit_low = 0;
  base_low = 0;
  base_mid = 0;
  access = 0;
  granularity = 0;
  base_high = 0;
}

abbrev gdt : Gdt
gdt = record {
  null = empty;
  kernel_code = empty;
  kernel_data = empty;
  tss_low = empty;
  tss_base_high = 0;
  tss_reserved = 0;
}

abbrev idt : Idt
idt v = record {
  offset_low = 0;
  selector = 0;
  ist = 0;
  flags = 0;
  offset_mid = 0;
  offset_high = 0;
  reserved = 0;
}

abbrev handlers : List ℕ
handlers = replicate 32 0x101000

idt_init-Gate_example :
    ((v h : ℕ)
      → get_elem? handlers v ≡ some h
      → h < 2 ^ 64
      → Gate h (idt_init handlers 0x102000 0x103000 idt v))
    × (Gate 0x102000 (idt_init handlers 0x102000 0x103000 idt 0x20)
        × (Gate 0x103000 (idt_init handlers 0x102000 0x103000 idt 0xFF)
            × ((v : ℕ) → 0x20 < v → v < 0xFF → idt_init handlers 0x102000 0x103000 idt v ≡ idt v)))
idt_init-Gate_example =
    idt_init-Gate handlers 0x102000 0x103000 idt refl (omega arith) (omega arith)
