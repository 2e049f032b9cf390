-- ===== src/Alloc/Magic.antt =====
-- lib/alloc.c: what the magic number of a header does and does not tell kfree.
use neko_os_c.Prelude.{
  ℕ, zero, suc, ◌+◌, ◌-◌, ◌^◌, ◌<◌, ◌≡◌, refl, sym, ◌∙◌, ◌≢◌, true, false, some, List, arith, ◌==◌,
  u64, Run, ok, panic, out_of_fuel, fault, ◌>>=◌, Bool-cases, inl, inr,
}
use neko_os_c.Alloc.{header_size, heap_magic, Headers, put, Heap, rounds, coalesce_loop, kfree}
use neko_os_c.Alloc.Cells.{Cell, IsHeap, cell_at}
use neko_os_c.Alloc.Kfree.{joined, joins, coalesce_loop-join, coalesce_loop-step, cell_at-header}

-- The loop of kfree does not panic, and touches no magic number.
abbrev Calm : Headers → Run Headers → Type 0
Calm m (ok m') = (q : ℕ) → (m' q).magic ≡ (m q).magic
Calm m panic = ⊥
Calm m out_of_fuel = Unit {0}
Calm m fault = Unit {0}

joined-magic : (m : Headers) (p q : ℕ) → (joined m p (m p) q).magic ≡ (m q).magic
unfolding put
joined-magic m p q = ground arith

Calm-trans :
    (m n : Headers) (r : Run Headers) → ((q : ℕ) → (n q).magic ≡ (m q).magic) → Calm n r → Calm m r
Calm-trans m n (ok m') same c = λ q. c q ∙ same q
Calm-trans m n panic same c = c
Calm-trans m n out_of_fuel same c = tt
Calm-trans m n fault same c = tt

coalesce_loop-Calm : (f p : ℕ) (m : Headers) → Calm m (coalesce_loop f p m)
coalesce_loop-Calm zero p m = unfold coalesce_loop in tt
coalesce_loop-Calm (suc f) p m = elim (Bool-cases (p == 0)) [
  | inl null ↦
      let stop : coalesce_loop (suc f) p m ≡ ok m =
        unfold coalesce_loop in rw (null, coalesce_loop) in
      rw stop (λ q. refl)
  | inr real ↦ elim (Bool-cases (joins m (m p))) [
    | inl hit ↦ rw (coalesce_loop-join f p m (m p) real refl hit) (
        Calm-trans m (joined m p (m p)) _ (joined-magic m p)
          (coalesce_loop-Calm f p (joined m p (m p))))
    | inr miss ↦
        rw (coalesce_loop-step f p m (m p) real refl miss) (coalesce_loop-Calm f (m p).next m)
  ]
]

bind_Calm :
    (m : Headers) (h : Heap) (r : Run Headers)
    → Calm m r
    → ((r >>= λ n. ok (record h { headers = n })) ≢ panic)
      × ((h' : Heap)
          → (r >>= λ n. ok (record h { headers = n })) ≡ ok h'
          → (q : ℕ) → (h'.headers q).magic ≡ (m q).magic)
bind_Calm m h (ok n) c = (λ e. cc, λ h' e q. ground (arith, c q))
bind_Calm m h panic c = absurd c
bind_Calm m h out_of_fuel c = (λ e. cc, λ h' e q. cc)
bind_Calm m h fault c = (λ e. cc, λ h' e q. cc)

module _ (a : ℕ) (h : Heap) (small : a + header_size < 2 ^ 64)
    (magic : (h.headers a).magic ≡ heap_magic) where
  marked : Headers
  marked = put h.headers a (record (h.headers a) { free = true })

  kfree-eq :
      kfree (a + header_size) h
      ≡ (coalesce_loop (suc (rounds h)) h.start marked >>= λ n. ok (record h { headers = n }))
  unfolding kfree marked
  kfree-eq =
      let back : u64 (a + header_size + 2 ^ 64 - header_size) ≡ a = omega arith in
      let nonnull : (a + header_size == 0) ≡ false = ground arith in
      let found : ((h.headers a).magic == heap_magic) ≡ true = rw magic in rw (nonnull, back, found)

  calm : Calm marked (coalesce_loop (suc (rounds h)) h.start marked)
  calm = coalesce_loop-Calm (suc (rounds h)) h.start marked

  kfree-ne_panic : kfree (a + header_size) h ≢ panic
  kfree-ne_panic = rw kfree-eq (bind_Calm marked h _ calm).0

  kfree-magic : (h' : Heap) → kfree (a + header_size) h ≡ ok h' → (h'.headers a).magic ≡ heap_magic
  kfree-magic h' run =
      (bind_Calm marked h _ calm).1 h' (sym kfree-eq ∙ run) a ∙ (unfold put marked in ground arith)

-- A second kfree of the same pointer, right after the first, does not panic: the magic number of a
-- freed block stays in place, also where the block has been joined to the one before it.
pub kfree-kfree-ne_panic :
    (a : ℕ) (h : Heap) (cs : List Cell) (c : Cell)
    → IsHeap h cs
    → cell_at a cs ≡ some c
    → (kfree (a + header_size) h ≢ panic)
      × ((h' : Heap) → kfree (a + header_size) h ≡ ok h' → kfree (a + header_size) h' ≢ panic)
kfree-kfree-ne_panic a h cs c is e =
    let (magic, low, high) =
      cell_at-header a h.start (h.start + h.total) h.headers cs c is.tiles is.linked e in
    let small : a + header_size < 2 ^ 64 = (let bound = is.bounded in omega arith) in
    (
      kfree-ne_panic a h small magic,
      λ h' run. kfree-ne_panic a h' small (kfree-magic a h small magic h' run),
    )
