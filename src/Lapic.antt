-- ===== src/Lapic.antt =====
-- drivers/lapic.c: the interrupt controller of a processor, its registers in memory.
pub mod Setup
pub mod Ipi
mod Witness
use neko_os_c.Prelude.{
  ℕ, zero, suc, ◌+◌, ◌*◌, ◌/◌, ◌%◌, ◌^◌, ◌==◌, true, false, u32, u64, bit_or, bit_and, ◌<<<◌, ◌>>>◌,
  Run, ok, out_of_fuel, ◌>>=◌, List, [], ◌∷◌, ◌++◌,
}
use neko_os_c.Madt.{Madt, madt_get_lapic_base}
use neko_os_c.Mem.{Bytes}
use neko_os_c.Paging.{Pages, paging_map_mmio_region}

-- The offsets of the registers.
abbrev pub lapic_id_reg : ℕ
lapic_id_reg = 0x020

abbrev pub lapic_version : ℕ
lapic_version = 0x030

abbrev pub lapic_tpr : ℕ
lapic_tpr = 0x080

abbrev pub lapic_eoi_reg : ℕ
lapic_eoi_reg = 0x0B0

abbrev pub lapic_spurious : ℕ
lapic_spurious = 0x0F0

abbrev pub lapic_icr_low : ℕ
lapic_icr_low = 0x300

abbrev pub lapic_icr_high : ℕ
lapic_icr_high = 0x310

abbrev pub lapic_timer : ℕ
lapic_timer = 0x320

abbrev pub lapic_timer_init : ℕ
lapic_timer_init = 0x380

abbrev pub lapic_timer_div : ℕ
lapic_timer_div = 0x3E0

-- LAPIC_ENABLE, LVT_VECTOR_MASK and LVT_TIMER_PERIODIC.
abbrev pub lapic_enable : ℕ
lapic_enable = 2 ^ 8

abbrev pub lvt_vector_mask : ℕ
lvt_vector_mask = 0xFF

abbrev pub lvt_timer_periodic : ℕ
lvt_timer_periodic = 2 ^ 17

pub record RegWrite : Type 0 where
  pub at_addr : ℕ
  pub value : ℕ

-- The line that lapic_init logs.
pub record LapicLine : Type 0 where
  pub id : ℕ
  pub version : ℕ

-- `lapic_base`, the register IA32_APIC_BASE of the processor, the writes to the device and the lines
-- logged, the earliest first.
pub record Lapic : Type 0 where
  pub base : ℕ
  pub msr : ℕ
  pub writes : List RegWrite
  pub logged : List LapicLine

unfoldable pub lapic_write : (reg val : ℕ) → Lapic → Lapic
lapic_write reg val l = record l {
  writes = l.writes ++ (record { at_addr = u64 (l.base + reg); value = val } ∷ []);
}

-- What the device answers when a register is read.
abbrev pub Answers : Type 0
Answers = ℕ → ℕ

-- The part of lapic_init behind the mapping.
unfoldable pub setup_lapic : Answers → Lapic → Lapic
unfolding lapic_write
setup_lapic read l =
    let enabled = record l { msr = bit_or l.msr (2 ^ 11) } in
    let l1 = lapic_write lapic_spurious (bit_or lvt_vector_mask lapic_enable) enabled in
    let l2 = lapic_write lapic_tpr 0 l1 in
    let l3 = lapic_write lapic_timer_div 0x3 l2 in
    let l4 = lapic_write lapic_timer (bit_or 0x20 lvt_timer_periodic) l3 in
    let l5 = lapic_write lapic_timer_init 0x100000 l4 in
    let l6 = lapic_write lapic_timer (read lapic_timer) l5 in
    let line : LapicLine = record {
      id = read lapic_id_reg >>> 24;
      version = bit_and (read lapic_version) 0xFF;
    } in
    record l6 { logged = l6.logged ++ (line ∷ []) }

unfoldable pub lapic_init : Bytes → Madt → Answers → Lapic → Pages → Run (Lapic × Pages)
lapic_init m madt read l p = madt_get_lapic_base m madt >>= λ base.
    paging_map_mmio_region base 0x1000 p >>= λ q.
    ok (setup_lapic read (record l { base = base }), q)

unfoldable pub lapic_eoi : Lapic → Lapic
unfolding lapic_write
lapic_eoi l = lapic_write lapic_eoi_reg 0 l

abbrev pub lapic_id : Answers → ℕ
lapic_id read = read lapic_id_reg >>> 24

-- `status i` is what the command register holds when it is read for the time `i`; the result is the
-- number of reads with which the loop ends.
unfoldable pub await_delivery : (fuel i : ℕ) → (status : ℕ → ℕ) → Run ℕ
await_delivery zero i status = out_of_fuel
await_delivery (suc fuel) i status = elim (bit_and (status i) (2 ^ 12) == 0) [
  | true ↦ ok (suc i)
  | false ↦ await_delivery fuel (suc i) status
]

unfoldable pub lapic_send_ipi :
    (fuel apic_id flags : ℕ) → (status : ℕ → ℕ) → Lapic → Run (ℕ × Lapic)
lapic_send_ipi fuel apic_id flags status l =
    let sent =
      lapic_write lapic_icr_low flags (lapic_write lapic_icr_high (u32 (apic_id <<< 24)) l) in
    await_delivery fuel 0 status >>= λ reads. ok (reads, sent)
