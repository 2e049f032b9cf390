-- ===== src/Smp/Witness.antt =====
-- The theorems of drivers/smp.c at concrete inputs.
use neko_os_c.Prelude.{refl, arith, []}
use neko_os_c.Madt.{Madt}
use neko_os_c.Smp.{Started}
use neko_os_c.Smp.Barrier.{
  Smp, Synchronised, Reach, starts, steps, wakes, checks_in, goes_on, smp_start, wake, check_in,
  go_on, Reach-Synchronised,
}
use neko_os_c.Smp.Trampoline.{Labels}

-- One other processor: it is woken, counted, and goes on to its work.
abbrev one_working : Smp
one_working = go_on 0 (check_in 0 (wake 0 (smp_start 2)))

one_working-Reach : Reach 1 2 one_working
unfolding go_on check_in wake
one_working-Reach =
    steps _ _
      (steps _ _ (steps _ _ starts (wakes 0 (smp_start 2) (omega arith) refl))
        (checks_in 0 (wake 0 (smp_start 2)) (omega arith) refl))
      (goes_on 0 (check_in 0 (wake 0 (smp_start 2))) (omega arith) refl (omega arith))

Reach-Synchronised_example : Synchronised 1 2 one_working
Reach-Synchronised_example = Reach-Synchronised 1 2 one_working (omega arith) one_working-Reach

-- A table with an end at its first entry.
abbrev empty_table : Madt
empty_table = record { madt_table = 100; cpu_count = 2; logged = [] }

abbrev no_answer : Started
no_answer i = 0

abbrev labels : Labels
labels = record {
  load = 0x8000;
  start = 0x100000;
  stop = 0x100100;
  pm = 0x100020;
  pm_jmp = 0x100010;
  gdt = 0x100080;
  gdt_ptr = 0x100098;
  gdt64 = 0x1000A0;
  gdt64_ptr = 0x1000B8;
  pml4 = 0x1000C0;
  stack = 0x1000C8;
  entry = 0x1000D0;
}
