-- ===== src/Smp/Start.antt =====
-- The loop of smp_init in drivers/smp.c: which processors are interrupted, and how long it waits.
use neko_os_c.Prelude.{
  ℕ, zero, suc, ◌+◌, ◌≤◌, ◌==◌, ◌≡◌, if◌then◌else◌, List, [], ◌∷◌, ◌++◌, Run, ok,
}
use neko_os_c.Madt.{Madt}
use neko_os_c.Smp.{Event, starting_line, patch_stack, ipi, sleep_ms, timed_out_line, Trace}

-- The interrupts among the events, by their target and their flags.
abbrev pub ipis : List Event → List (ℕ × ℕ)
ipis [] = []
ipis (starting_line cpu apic_id ∷ es) = ipis es
ipis (patch_stack stack ∷ es) = ipis es
ipis (ipi apic_id flags ∷ es) = (apic_id, flags) ∷ ipis es
ipis (sleep_ms ms ∷ es) = ipis es
ipis (timed_out_line cpu ∷ es) = ipis es

-- From `t` to `u` these interrupts are sent, and `aps_started` is read at most so often.
pub record Sent (t : Trace) (sent : List (ℕ × ℕ)) (reads : ℕ) (u : Trace) : Type 0 where
  pub sent_are : ipis u.events ≡ ipis t.events ++ sent
  pub reads_le : u.reads ≤ t.reads + reads

-- The interrupts of one round.
abbrev pub ipis_to : (apic_id bsp_id : ℕ) → List (ℕ × ℕ)
ipis_to apic_id bsp_id =
    if apic_id == bsp_id then [] else (apic_id, 0x4500) ∷ (apic_id, 0x4608) ∷ (apic_id, 0x4608) ∷ []

-- The interrupts of the rounds from `cpu` on.
abbrev pub ipis_for : (ids : ℕ → ℕ) → (bsp_id n cpu : ℕ) → List (ℕ × ℕ)
ipis_for ids bsp_id zero cpu = []
ipis_for ids bsp_id (suc n) cpu = ipis_to (ids cpu) bsp_id ++ ipis_for ids bsp_id n (suc cpu)

abbrev pub Sends : Trace → List (ℕ × ℕ) → (reads : ℕ) → Run Trace → Type 0
Sends t sent reads r = (u : Trace) × (r ≡ ok u) × Sent t sent reads u
