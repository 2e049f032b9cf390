-- ===== src/Multiboot.antt =====
-- kernel/multiboot2.c and boot/multiboot2.h: the tags that the boot loader passes to the kernel.
pub mod Tags
pub mod Rsdp
pub mod Parse
mod Witness
