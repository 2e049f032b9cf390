-- ===== src/Hpet/Witness.antt =====
-- The theorems of drivers/hpet.c at concrete inputs.
use neko_os_c.Prelude.{◌+◌, ◌*◌, ◌-◌, arith, [], get_or, ◌∷◌, suc}
use neko_os_c.Mem.{Bytes}
use neko_os_c.Hpet.{Hpet, hpet_sleep_us, Ticks}
use neko_os_c.Hpet.Sleep.{Waited, hpet_sleep_us-Waited}

-- The table at 1000 names the device at 0xFED00000.
abbrev hpet_bytes : Bytes
hpet_bytes a = get_or (0 ∷ 0 ∷ 0xD0 ∷ 0xFE ∷ []) (a - 1044) 0

abbrev found_hpet : Hpet
found_hpet = record { table = 1000; base = 0; period = 0; freq = 0; writes = []; logged = [] }

abbrev running_hpet : Hpet
running_hpet = record {
  table = 1000;
  base = 0xFED00000;
  period = 69841279;
  freq = 14318179;
  writes = [];
  logged = [];
}

-- A counter that shows ten more on each read.
abbrev steady : Ticks
steady i = 100 + 10 * i

hpet_sleep_us-Waited_example :
    Waited steady 0 (100 + 14) (hpet_sleep_us (suc 14) 0 1 steady running_hpet)
hpet_sleep_us-Waited_example =
    hpet_sleep_us-Waited 14 0 1 steady running_hpet (omega arith) (omega arith)
      (λ j. (omega arith, λ below. omega arith)) (omega arith)
