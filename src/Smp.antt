-- ===== src/Smp.antt =====
-- drivers/smp.c: the other processors are started, one after the other, and wait for each other.
pub mod Barrier
pub mod Start
pub mod Trampoline
mod Witness
use neko_os_c.Prelude.{
  ℕ, zero, suc, ◌+◌, ◌-◌, ◌*◌, ◌%◌, ◌^◌, ◌==◌, ltb, if◌then◌else◌, u8, u32, u64, Bool, true, false,
  List, [], ◌∷◌, ◌++◌, Run, ok, ◌>>=◌,
}
use neko_os_c.Madt.{Madt, madt_get_lapic_id, madt_get_cpu_count}
use neko_os_c.Mem.{Bytes}

-- AP_STACK_SIZE and MAX_APS.
abbrev pub ap_stack_size : ℕ
ap_stack_size = 0x4000

abbrev pub max_aps : ℕ
max_aps = 16

-- The top of a stack in the array `ap_stacks`.
abbrev pub get_ap_stack : (ap_stacks cpu_id : ℕ) → ℕ
get_ap_stack ap_stacks cpu_id = u64 (ap_stacks + cpu_id * ap_stack_size + ap_stack_size)

-- What smp_init does to the outside: interrupts between processors, waits, the stack that it writes in
-- the trampoline, and the two lines of its loop.
pub data Event : Type 0 where
  starting_line : (cpu apic_id : ℕ) → Event
  patch_stack : (stack : ℕ) → Event
  ipi : (apic_id flags : ℕ) → Event
  sleep_ms : (ms : ℕ) → Event
  timed_out_line : (cpu : ℕ) → Event

-- `started i` is what `aps_started` holds when it is read for the time `i`, counted from 0.
abbrev pub Started : Type 0
Started = ℕ → ℕ

-- The events, the earliest first, and the number of reads of `aps_started` so far.
pub record Trace : Type 0 where
  pub events : List Event
  pub reads : ℕ

abbrev pub emit : List Event → Trace → Trace
emit es t = record t { events = t.events ++ es }

-- The wait for a processor, with `timeout` milliseconds left.
unfoldable pub wait_for_ap : (timeout cpu expected : ℕ) → Started → Trace → Trace
wait_for_ap zero cpu expected started t = t
wait_for_ap (suc timeout) cpu expected started t = elim (ltb (started t.reads) expected) [
  | true ↦ elim timeout as (λ n. Trace) [
    | zero ↦ emit (sleep_ms 1 ∷ timed_out_line cpu ∷ []) (record t { reads = suc t.reads })
    | suc _ ↦
        wait_for_ap timeout cpu expected started
          (emit (sleep_ms 1 ∷ []) (record t { reads = suc t.reads }))
  ]
  | false ↦ record t { reads = suc t.reads }
]

-- INIT, and twice the start at the page of the trampoline.
abbrev pub ap_events : (cpu apic_id stack : ℕ) → List Event
ap_events cpu apic_id stack =
    starting_line cpu apic_id
    ∷ patch_stack stack
    ∷ ipi apic_id 0x00004500
    ∷ sleep_ms 10
    ∷ ipi apic_id 0x00004608
    ∷ sleep_ms 1
    ∷ ipi apic_id 0x00004608
    ∷ sleep_ms 1
    ∷ []

-- The body of the loop of smp_init.
unfoldable pub start_ap : (bsp_id ap_stacks cpu apic_id : ℕ) → Started → Trace → Trace
start_ap bsp_id ap_stacks cpu apic_id started t =
    if apic_id == bsp_id
    then t
    else (let expected = u32 (started t.reads + 1) in
        wait_for_ap 5000 cpu expected started (
          emit (ap_events cpu apic_id (get_ap_stack ap_stacks cpu))
            (record t { reads = suc t.reads })))

-- `n` more rounds from `cpu` on.
unfoldable pub start_aps : (n cpu bsp_id ap_stacks : ℕ) → Bytes → Madt → Started → Trace → Run Trace
start_aps zero cpu bsp_id ap_stacks m madt started t = ok t
start_aps (suc n) cpu bsp_id ap_stacks m madt started t =
    madt_get_lapic_id m cpu madt >>= λ apic_id.
    start_aps n (suc cpu) bsp_id ap_stacks m madt started
      (start_ap bsp_id ap_stacks cpu apic_id started t)

-- The loop of smp_init, whose bound is truncated to uint8_t.
unfoldable pub start_all : (bsp_id ap_stacks : ℕ) → Bytes → Madt → Started → Trace → Run Trace
start_all bsp_id ap_stacks m madt started t =
    start_aps (u8 (madt_get_cpu_count madt)) 0 bsp_id ap_stacks m madt started t
