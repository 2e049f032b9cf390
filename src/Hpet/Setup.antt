-- ===== src/Hpet/Setup.antt =====
-- hpet_init of drivers/hpet.c, on the page tables of drivers/paging.c.
use neko_os_c.Prelude.{
  ℕ, ◌+◌, ◌*◌, ◌/◌, ◌^◌, ◌≤◌, ◌<◌, ◌≡◌, ◌⊎◌, u64, Run, ok, panic, fault, List, [], ◌∷◌, ◌++◌,
  bit_or,
}
use neko_os_c.Hpet.{Hpet, RegWrite, hpet_config, hpet_counter, hpet_cfg_enable}
use neko_os_c.Paging.{Pages, page_present, page_writable, page_cache_disable}
use neko_os_c.Paging.Mmio.{Served, touched}

abbrev pub uncached : ℕ
uncached = bit_or (bit_or page_writable page_cache_disable) page_present

-- The timer is stopped, its counter cleared, and started, in this order.
abbrev pub start_writes : ℕ → List RegWrite
start_writes base =
    record { at_addr = u64 (base + hpet_config); value = 0 }
    ∷ record { at_addr = u64 (base + hpet_counter); value = 0 }
    ∷ record { at_addr = u64 (base + hpet_config); value = hpet_cfg_enable }
    ∷ []

pub record Ready (p : Pages) (used base period : ℕ) (old h : Hpet) (q : Pages) : Type 0 where
  pub base_is : h.base ≡ base
  pub mapped : Served p used base 0x1000 uncached q
  pub period_is : h.period ≡ period
  pub freq_low : h.freq * period ≤ 1000000000000000
  pub freq_high : 1000000000000000 < h.freq * period + period
  pub writes_are : h.writes ≡ old.writes ++ start_writes base

abbrev pub ReadyOutcome : (p : Pages) (used base caps : ℕ) → Hpet → Run (Hpet × Pages) → Type 0
ReadyOutcome p used base caps old r =
    ((r ≡ panic) × ((old.table ≡ 0) ⊎ (33 ≤ used + touched base 0x1000 * 3)))
    ⊎ (((r ≡ fault) × (caps < 2 ^ 32))
        ⊎ ((h : Hpet) × (q : Pages) × (r ≡ ok (h, q)) × Ready p used base (caps / 2 ^ 32) old h q))

-- The state that start_timer leaves.
abbrev started : (caps : ℕ) → Hpet → Hpet
started caps h =
    let period = caps / 2 ^ 32 in
    let freq = 1000000000000000 / period in
    record h {
      period = period;
      freq = freq;
      writes = h.writes ++ start_writes h.base;
      logged = h.logged ++ (record { base = h.base; period = period; freq = freq } ∷ []);
    }
