-- ===== src/Hpet.antt =====
-- drivers/hpet.c: the timer, its registers in memory, and the waits on its counter.
pub mod Setup
pub mod Sleep
mod Witness
use neko_os_c.Prelude.{
  ℕ, zero, suc, ◌+◌, ◌*◌, ◌/◌, ◌%◌, ◌^◌, ◌==◌, true, false, ltb, if◌then◌else◌, u64, Run, ok, panic,
  fault, out_of_fuel, ◌>>=◌, List, [], ◌∷◌, ◌++◌, ◌>>>◌,
}
use neko_os_c.Mem.{Bytes, word64}
use neko_os_c.Paging.{Pages, paging_map_mmio_region}

-- The offsets of the registers, and HPET_CFG_ENABLE.
abbrev pub hpet_cap : ℕ
hpet_cap = 0x000

abbrev pub hpet_config : ℕ
hpet_config = 0x010

abbrev pub hpet_counter : ℕ
hpet_counter = 0x0F0

abbrev pub hpet_cfg_enable : ℕ
hpet_cfg_enable = 1

-- A write to a register.
pub record RegWrite : Type 0 where
  pub at_addr : ℕ
  pub value : ℕ

-- The line that hpet_init logs.
pub record HpetLine : Type 0 where
  pub base : ℕ
  pub period : ℕ
  pub freq : ℕ

-- The static variables, the writes to the device and the lines logged, the earliest first; `table` is 0
-- when it is null.
pub record Hpet : Type 0 where
  pub table : ℕ
  pub base : ℕ
  pub period : ℕ
  pub freq : ℕ
  pub writes : List RegWrite
  pub logged : List HpetLine

unfoldable pub hpet_parse : ℕ → Hpet → Hpet
hpet_parse hpet h = record h { table = hpet }

unfoldable pub hpet_write : (reg val : ℕ) → Hpet → Hpet
hpet_write reg val h = record h {
  writes = h.writes ++ (record { at_addr = u64 (h.base + reg); value = val } ∷ []);
}

-- The part of hpet_init behind the mapping. `caps` is what the device answers when its capabilities are
-- read. A division by zero is a fault.
unfoldable pub start_timer : (caps : ℕ) → Hpet → Run Hpet
unfolding hpet_write
start_timer caps h =
    let timed = record h { period = caps >>> 32; freq = 1000000000000000 / (caps >>> 32) } in
    let line : HpetLine = record { base = timed.base; period = timed.period; freq = timed.freq } in
    let said = record timed { logged = timed.logged ++ (line ∷ []) } in
    if caps >>> 32 == 0
    then fault
    else ok (
        hpet_write hpet_config hpet_cfg_enable
          (hpet_write hpet_counter 0 (hpet_write hpet_config 0 said)))

-- The field `address.address` of the table stands at 44.
unfoldable pub hpet_init : (m : Bytes) (caps : ℕ) → Hpet → Pages → Run (Hpet × Pages)
hpet_init m caps h p =
    let base = word64 m (h.table + 44) in
    if h.table == 0
    then panic
    else (paging_map_mmio_region base 0x1000 p >>= λ q.
        start_timer caps (record h { base = base }) >>= λ r. ok (r, q))

-- `ticks i` is what the counter shows when hpet_ticks reads it for the time `i`, counted from 0.
abbrev pub Ticks : Type 0
Ticks = ℕ → ℕ

-- The loop, which has read the counter `i` times; the result is the number of reads it ends with.
unfoldable pub wait_until : (fuel i target : ℕ) → Ticks → Run ℕ
wait_until zero i target ticks = out_of_fuel
wait_until (suc fuel) i target ticks = elim (ltb (ticks i) target) [
  | true ↦ wait_until fuel (suc i) target ticks
  | false ↦ ok (suc i)
]

abbrev pub sleep_ticks : (us freq : ℕ) → ℕ
sleep_ticks us freq = u64 (us * freq) / 1000000

-- The counter has been read `i` times before; `fuel` bounds the rounds of the loop.
unfoldable pub hpet_sleep_us : (fuel i us : ℕ) → Ticks → Hpet → Run ℕ
unfolding wait_until
hpet_sleep_us fuel i us ticks h =
    wait_until fuel (suc i) (u64 (ticks i + sleep_ticks us h.freq)) ticks

unfoldable pub hpet_sleep_ms : (fuel i ms : ℕ) → Ticks → Hpet → Run ℕ
unfolding hpet_sleep_us
hpet_sleep_ms fuel i ms ticks h = hpet_sleep_us fuel i (u64 (ms * 1000)) ticks h
