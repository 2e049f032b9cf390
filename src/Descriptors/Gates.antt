-- ===== src/Descriptors/Gates.antt =====
-- drivers/idt.c: the handlers that the processor finds in the gates.
use neko_os_c.Prelude.{
  ℕ, zero, suc, ◌+◌, ◌*◌, ◌^◌, ◌≤◌, ◌<◌, ◌≡◌, ◌≢◌, refl, ap, sym, ◌∙◌, bit_and, ◌>>>◌, List, [],
  ◌∷◌, length, get_elem?, some, bit_and_mask, arith,
}
use mathlib.Core.Path.{subst}
use neko_os_c.Descriptors.{IdtEntry, Idt, idt_set_entry, set_entries, idt_init}

-- The address of the handler that a gate spells.
abbrev pub handler_of : IdtEntry → ℕ
handler_of e = e.offset_low + e.offset_mid * 2 ^ 16 + e.offset_high * 2 ^ 32

-- A present interrupt gate of ring 0 to `handler`, in the kernel's code segment.
abbrev pub Gate : (handler : ℕ) → IdtEntry → Type 0
Gate handler e = (handler_of e ≡ handler) × ((e.selector ≡ 0x08) × ((e.flags ≡ 0x8E) × (e.ist ≡ 0)))

abbrev gate : ℕ → IdtEntry
gate handler = record {
  offset_low = bit_and handler 0xFFFF;
  selector = 0x08;
  ist = 0;
  flags = 0x8E;
  offset_mid = bit_and (handler >>> 16) 0xFFFF;
  offset_high = bit_and (handler >>> 32) 0xFFFFFFFF;
  reserved = 0;
}

gate-Gate : (handler : ℕ) → handler < 2 ^ 64 → Gate handler (gate handler)
gate-Gate handler low = (
  omega (
    arith,
    bit_and_mask 16 handler,
    bit_and_mask 16 (handler >>> 16),
    bit_and_mask 32 (handler >>> 32),
  ),
  (refl, (refl, refl)),
)

set_here : (v handler : ℕ) (idt : Idt) → v < 256 → idt_set_entry v handler 0x8E idt v ≡ gate handler
unfolding idt_set_entry
set_here v handler idt lv = ground arith

set_there :
    (v w handler : ℕ) (idt : Idt) → v < 256 → w ≢ v → idt_set_entry v handler 0x8E idt w ≡ idt w
unfolding idt_set_entry
set_there v w handler idt lv ne = ground arith

set_entries_below :
    (hs : List ℕ) (i w : ℕ) (idt : Idt)
    → i + length hs ≤ 256
    → w < i
    → set_entries i hs idt w ≡ idt w
unfolding set_entries
set_entries_below [] i w idt room low = refl
set_entries_below (h ∷ hs) i w idt room low =
    set_entries_below hs (suc i) w (idt_set_entry i h 0x8E idt) (omega arith) (omega arith)
    ∙ set_there i w h idt (omega arith) (omega arith)

set_entries_above :
    (hs : List ℕ) (i w : ℕ) (idt : Idt)
    → i + length hs ≤ 256
    → i + length hs ≤ w
    → set_entries i hs idt w ≡ idt w
unfolding set_entries
set_entries_above [] i w idt room high = refl
set_entries_above (h ∷ hs) i w idt room high =
    set_entries_above hs (suc i) w (idt_set_entry i h 0x8E idt) (omega arith) (omega arith)
    ∙ set_there i w h idt (omega arith) (omega arith)

same_entry : (a b : ℕ) → some a ≡ some b → a ≡ b
same_entry a b e = ground arith

set_entries-gate :
    (hs : List ℕ) (i j h : ℕ) (idt : Idt)
    → i + length hs ≤ 256
    → get_elem? hs j ≡ some h
    → set_entries i hs idt (i + j) ≡ gate h
unfolding set_entries
set_entries-gate [] i j h idt room e = absurd (ground arith)
set_entries-gate (h' ∷ hs) i zero h idt room e =
    ap (set_entries (suc i) hs (idt_set_entry i h' 0x8E idt)) (omega arith)
    ∙ set_entries_below hs (suc i) i (idt_set_entry i h' 0x8E idt) (omega arith) (omega arith)
    ∙ set_here i h' idt (omega arith)
    ∙ ap gate (same_entry h' h e)
set_entries-gate (h' ∷ hs) i (suc j) h idt room e =
    ap (set_entries (suc i) hs (idt_set_entry i h' 0x8E idt)) (omega arith)
    ∙ set_entries-gate hs (suc i) j h (idt_set_entry i h' 0x8E idt) (omega arith) e

listed : (hs : List ℕ) (v h : ℕ) → get_elem? hs v ≡ some h → v < length hs
listed [] v h e = absurd (ground arith)
listed (h' ∷ hs) zero h e = omega arith
listed (h' ∷ hs) (suc v) h e = omega (arith, listed hs v h e)

from_zero : (v : ℕ) → v ≡ 0 + v
from_zero v = omega arith

module _ (handlers : List ℕ) (isr_timer isr_spurious : ℕ) (idt : Idt)
    (all : length handlers ≡ 32) where
  abbrev idt1 : Idt
  idt1 = set_entries 0 handlers idt

  abbrev idt2 : Idt
  idt2 = idt_set_entry 0x20 isr_timer 0x8E idt1

  exception_gate :
      (v h : ℕ)
      → get_elem? handlers v ≡ some h
      → idt_init handlers isr_timer isr_spurious idt v ≡ gate h
  unfolding idt_init
  exception_gate v h e =
      let low = listed handlers v h e in
      set_there 0xFF v isr_spurious idt2 (omega arith) (omega (arith, all, low))
      ∙ set_there 0x20 v isr_timer idt1 (omega arith) (omega (arith, all, low))
      ∙ ap idt1 (from_zero v)
      ∙ set_entries-gate handlers 0 v h idt (omega (arith, all)) e

  timer_gate : idt_init handlers isr_timer isr_spurious idt 0x20 ≡ gate isr_timer
  unfolding idt_init
  timer_gate =
      set_there 0xFF 0x20 isr_spurious idt2 (omega arith) (omega arith)
      ∙ set_here 0x20 isr_timer idt1 (omega arith)

  spurious_gate : idt_init handlers isr_timer isr_spurious idt 0xFF ≡ gate isr_spurious
  unfolding idt_init
  spurious_gate = set_here 0xFF isr_spurious idt2 (omega arith)

  other_gate :
      (v : ℕ) → 0x20 < v → v < 0xFF → idt_init handlers isr_timer isr_spurious idt v ≡ idt v
  unfolding idt_init
  other_gate v low high =
      set_there 0xFF v isr_spurious idt2 (omega arith) (omega arith)
      ∙ set_there 0x20 v isr_timer idt1 (omega arith) (omega arith)
      ∙ set_entries_above handlers 0 v idt (omega (arith, all)) (omega (arith, all))

-- With 32 exception handlers, and all handlers at addresses of 64 bits, idt_init leaves a present
-- interrupt gate to each exception handler at its vector, to the timer at 0x20 and to the spurious
-- handler at 0xFF, and every other vector as it was.
pub idt_init-Gate :
    (handlers : List ℕ) (isr_timer isr_spurious : ℕ) (idt : Idt)
    → length handlers ≡ 32
    → isr_timer < 2 ^ 64
    → isr_spurious < 2 ^ 64
    → ((v h : ℕ)
        → get_elem? handlers v ≡ some h
        → h < 2 ^ 64
        → Gate h (idt_init handlers isr_timer isr_spurious idt v))
      × (Gate isr_timer (idt_init handlers isr_timer isr_spurious idt 0x20)
          × (Gate isr_spurious (idt_init handlers isr_timer isr_spurious idt 0xFF)
              × ((v : ℕ)
                  → 0x20 < v
                  → v < 0xFF
                  → idt_init handlers isr_timer isr_spurious idt v ≡ idt v)))
idt_init-Gate handlers isr_timer isr_spurious idt all lt ls = (
  λ v h e lh.
      subst (Gate h) (sym (exception_gate handlers isr_timer isr_spurious idt all v h e))
        (gate-Gate h lh),
  (
    subst (Gate isr_timer) (sym (timer_gate handlers isr_timer isr_spurious idt all))
        (gate-Gate isr_timer lt),
    (
      subst (Gate isr_spurious) (sym (spurious_gate handlers isr_timer isr_spurious idt all))
          (gate-Gate isr_spurious ls),
      other_gate handlers isr_timer isr_spurious idt all,
    ),
  ),
)
