-- ===== src/Mem/Copy.antt =====
-- kernel/mem.c: what the loops leave in memory.
use mathlib.Core.Path.{fun_ext}
use neko_os_c.Prelude.{
  ℕ, zero, suc, ◌+◌, ◌-◌, ◌≤◌, ◌<◌, ◌≡◌, ◌⊎◌, ◌&&◌, inl, inr, Bool, arith, ◌==◌, ltb, leb,
  if◌then◌else◌, Bool-cases, u8,
}
use neko_os_c.Mem.{
  Bytes, poke, copy_up, copy_down, memcpy, memmove, fill_up, memset, Sign, minus, same, plus,
  compare_up, memcmp,
}

-- `x` is one of the `n` addresses from `dest` on.
abbrev pub within : ℕ → ℕ → ℕ → Bool
within dest n x = leb dest x && ltb x (dest + n)

-- The memory in which the `n` bytes from `dest` on are those that stood at `src`.
abbrev pub moved : (dest src n : ℕ) → Bytes → Bytes
moved dest src n m x = if within dest n x then m (src + (x - dest)) else m x

copy_up-eq :
    (n i dest src : ℕ) (m : Bytes) (x : ℕ)
    → (dest ≤ src) ⊎ (src + i + n ≤ dest)
    → copy_up n i dest src m x ≡ (if within (dest + i) n x then m (src + (x - dest)) else m x)
unfolding copy_up poke
copy_up-eq zero i dest src m x apart = ground arith
copy_up-eq (suc n) i dest src m x apart =
    ground (arith, copy_up-eq n (i + 1) dest src (poke m (dest + i) (m (src + i))) x)

copy_down-eq :
    (n dest src : ℕ) (m : Bytes) (x : ℕ)
    → src ≤ dest
    → copy_down n dest src m x ≡ moved dest src n m x
unfolding copy_down poke
copy_down-eq zero dest src m x below = ground arith
copy_down-eq (suc n) dest src m x below =
    ground (arith, copy_down-eq n dest src (poke m (dest + n) (m (src + n))) x)

-- memcpy copies the `n` bytes and leaves every other address alone, if the regions do not overlap
-- or the destination does not lie above the source.
pub memcpy-moved :
    (dest src n : ℕ) (m : Bytes)
    → (dest ≤ src) ⊎ (src + n ≤ dest)
    → memcpy dest src n m ≡ moved dest src n m
unfolding memcpy
memcpy-moved dest src n m apart = fun_ext λ x. ground (arith, copy_up-eq n 0 dest src m x)

-- memmove copies the `n` bytes and leaves every other address alone, however the regions overlap.
pub memmove-moved : (dest src n : ℕ) (m : Bytes) → memmove dest src n m ≡ moved dest src n m
unfolding memmove
memmove-moved dest src n m = fun_ext λ x. elim (Bool-cases (ltb dest src)) [
  | inl up ↦ rw up (ground (arith, copy_up-eq n 0 dest src m x))
  | inr down ↦ rw down (copy_down-eq n dest src m x (ground arith))
]

fill_up-eq :
    (n i dest val : ℕ) (m : Bytes) (x : ℕ)
    → fill_up n i dest val m x ≡ (if within (dest + i) n x then u8 val else m x)
unfolding fill_up poke
fill_up-eq zero i dest val m x = ground arith
fill_up-eq (suc n) i dest val m x =
    ground (arith, fill_up-eq n (i + 1) dest val (poke m (dest + i) (u8 val)) x)

-- memset writes the low byte of `val` to the `n` addresses from `dest` on, and to no other.
pub memset-eq :
    (dest val n : ℕ) (m : Bytes) (x : ℕ)
    → memset dest val n m x ≡ (if within dest n x then u8 val else m x)
unfolding memset
memset-eq dest val n m x = ground (arith, fill_up-eq n 0 dest val m x)

-- The first `i` bytes at `a` and at `b` are the same, pair by pair.
abbrev pub Agree : ℕ → (a b : ℕ) → Bytes → Type 0
Agree n a b m = (k : ℕ) → k < n → m (a + k) ≡ m (b + k)

-- What the result says: at the first difference, or that there is none.
abbrev pub Verdict : (a b n : ℕ) → Bytes → Sign → Type 0
Verdict a b n m same = Agree n a b m
Verdict a b n m minus = (i : ℕ) × (i < n) × Agree i a b m × (m (a + i) < m (b + i))
Verdict a b n m plus = (i : ℕ) × (i < n) × Agree i a b m × (m (b + i) < m (a + i))

-- The comparison from byte `i` on, the bytes before it being the same.
compare_up-Verdict :
    (n i a b : ℕ) (m : Bytes) (total : ℕ)
    → i + n ≡ total
    → Agree i a b m
    → Verdict a b total m (compare_up n i a b m)
unfolding compare_up
compare_up-Verdict zero i a b m total e agree = λ k h. agree k (omega arith)
compare_up-Verdict (suc n) i a b m total e agree = elim (Bool-cases (ltb (m (a + i)) (m (b + i)))) [
  | inl less ↦ rw less (i, omega arith, agree, ground arith)
  | inr not_less ↦ rw not_less (elim (Bool-cases (ltb (m (b + i)) (m (a + i)))) [
    | inl more ↦ rw more (i, omega arith, agree, ground arith)
    | inr not_more ↦ rw not_more (
        compare_up-Verdict n (i + 1) a b m total (omega arith) λ k h. elim (Bool-cases (k == i)) [
          | inl e' ↦ ground arith
          | inr ne ↦ agree k (ground arith)
        ])
  ])
]

-- memcmp answers 0 exactly for equal regions, and otherwise tells which has the smaller byte at the
-- first place where they differ.
pub memcmp-Verdict : (a b n : ℕ) (m : Bytes) → Verdict a b n m (memcmp a b n m)
unfolding memcmp
memcmp-Verdict a b n m = compare_up-Verdict n 0 a b m n (omega arith) (λ k h. elim h [ ])
