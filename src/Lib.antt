-- ===== src/Lib.antt =====
-- Neko OS, a small x86-64 kernel in C: the parts that decide what it does, and what they guarantee.
--
-- The parts and how they meet. kernel/mem.c copies, clears and compares memory for everything else.
-- lib/alloc.c hands out the kernel heap: task_create takes its tasks from it, and console_init its
-- buffer of cells. drivers/scheduler.c keeps the queue of the tasks that are ready, which all processors
-- share, and switches between tasks; drivers/scheduler.nasm is the switch itself. lib/sprintf.c formats
-- text for the serial port of drivers/serial.c; lib/console.c holds the same formatting for the text
-- console, which draws the characters of drivers/font.c on the frame buffer of drivers/framebuffer.c.
-- drivers/paging.c builds the page tables: paging_init from the memory map of the loader, and the
-- drivers add their registers through paging_map_mmio_region. kernel/multiboot2.c finds what the loader
-- passed, drivers/acpi.c follows it to the firmware's tables and hands them to drivers/madt.c and
-- drivers/hpet.c, which drivers/lapic.c and drivers/smp.c ask for the processors. kernel/main.c calls
-- the parts in turn and queues the first tasks.
--
-- Which file models which part; a child module holds proofs about its parent, and Witness its tests.
--   Prelude      Boolean tests, lists, words and shifts; `Run`, the outcome of a kernel routine:
--                a value, a call of kpanic, an access that C leaves undefined, or a loop that did not
--                end within the rounds of the model.
--   Mem          kernel/mem.c: memcpy, memmove, memset and memcmp on a function from addresses to
--                bytes. The loops are structural recursion on the count that is left.
--   Alloc        lib/alloc.c: the block headers at each address, and the bytes between them.
--                kalloc_init, kmalloc (its loop is kmalloc_loop, the split take_block), kfree (its
--                loop is coalesce_loop) and kcalloc, with the wrap-around of size_t. The loops are
--                given one round more than there is room for headers; the theorems on them say that
--                they return. Cells describes a heap as the list of its blocks.
--   Sched        drivers/scheduler.c, include/scheduler.h and include/spinlock.h for one processor:
--                scheduler_enqueue, scheduler_dequeue, scheduler_yield, scheduler_tick, task_exit and
--                the loop of cpu_enter_worker (worker_round). Tasks live at addresses, and the queue
--                is linked through them. A lock that is held stays held.
--   Context      drivers/scheduler.nasm (save, restore, context_switch) on a stack of 64-bit words,
--                and task_create and task_trampoline of drivers/scheduler.c.
--   Format       lib/sprintf.c, and the same code in lib/console.c: Parse is the part of svprintf up
--                to the conversion character, Print the functions sprint_uint and sprint_int and the
--                conversions %c and %s, Vprintf the loop. They are over a function `putchar`, which
--                Serial and Console give. The arguments are 64-bit slots, as va_arg reads them on
--                x86-64. The digits have the 64 rounds that `char buf[64]` has room for, the counting
--                of digits 64, the length of a string 2 ^ 31, where its int would overflow, and the
--                loop one round more than the format has characters.
--   Serial       drivers/serial.c: what each read of the line status finds is part of the state, and
--                the polling loop is bounded by `patience`.
--   Framebuffer  drivers/framebuffer.c: pixels of three bytes in a byte memory. A loop over a row or a
--                column is recursion on the rounds that its bound leaves.
--   Font         drivers/font.c: the font file, as bytes, is part of the state.
--   Console      lib/console.c: the cells by index, the cursor and the colours; console_clear,
--                console_putchar, scroll, console_print, console_init, and cprint_uint, cprint_int
--                and cvprintf as the functions of Format with console_putchar.
--   Klog         lib/klogf.c: kvlog on the two devices, and klog with its lock.
--   Descriptors  drivers/gdt.c and drivers/idt.c: the segment descriptors (Segments) and the interrupt
--                gates (Gates) that gdt_init and idt_init write.
--   Paging       drivers/paging.c: the entries at each address, and the pool. Init is paging_init. Walk is
--                the translation of the processor, Tree the tables as a tree by the addresses that they
--                serve; Agree, Link, Next, Way and Write say what a changed entry keeps, and Mapping,
--                Maps, Region, Mmio, Areas, Identity and Boot what the functions do. The loops have one
--                round for each page that the size begins, and those over the loader's structures as
--                many as the structures have bytes.
--   Multiboot    kernel/multiboot2.c and include/boot/multiboot2.h: Tags is the walk over the tags, Rsdp
--                get_acpi_rsdp, Parse mb2_parse. A loop has as many rounds as the stated size has bytes;
--                a tag has 8 at least.
--   Madt         drivers/madt.c over the bytes of the table, and Entries the list of what it holds. The
--                loops have as many rounds as the table has bytes; an entry has one at least.
--   Acpi         drivers/acpi.c, which passes the tables to Madt and Hpet.
--   Hpet         drivers/hpet.c: the writes to the device as a list, and what the counter shows at each
--                read as a function. The bound of a wait is a parameter, which the theorem on it sets.
--   Lapic        drivers/lapic.c in the same way.
--   Spinlock     include/spinlock.h with any number of processors, which take atomic steps in any order.
--   Smp          drivers/smp.c: the loop that starts the processors (its parent), the waits of ap_main
--                and smp_init as an interleaving (Barrier), and the code that is patched (Trampoline).
--                Framebuffer.Setup is fb_init on these page tables.
--   Boot         scheduler_init of drivers/scheduler.c, and what kernel_main of kernel/main.c does to the
--                heap and the tasks with one processor: Laid is the heap with the tasks in it, Tasks and
--                Loops what is created, Start the whole way from kalloc_init on.
--
-- Not modelled: interrupts and the interleaving of processors outside Spinlock and Smp (a lock that
-- another processor holds, a tick inside a critical section); the caches, of memory and of translations,
-- and the order of memory; the other calls of kernel/main.c, drivers/pic.c, lapic_sleep_ms, the assembly
-- of the boot and of the trampoline; kernel/panic.c, where kpanic is the outcome `panic`. A line of the
-- log is the list of its arguments in Multiboot, Madt, Acpi, Hpet, Lapic, Smp and paging_init, and is left
-- out in the other drivers.
pub mod Prelude
pub mod Mem
pub mod Alloc
pub mod Sched
pub mod Context
pub mod Format
pub mod Serial
pub mod Framebuffer
pub mod Font
pub mod Console
pub mod Klog
pub mod Descriptors
pub mod Paging
pub mod Madt
pub mod Hpet
pub mod Multiboot
pub mod Acpi
pub mod Spinlock
pub mod Smp
pub mod Lapic
pub mod Boot
