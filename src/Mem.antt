-- ===== src/Mem.antt =====
-- kernel/mem.c: memcpy, memmove, memset and memcmp over a byte memory.
pub mod Copy
mod Witness
use neko_os_c.Prelude.{
  ℕ, zero, suc, ◌+◌, ◌-◌, ◌*◌, ◌^◌, ◌<◌, Bool, true, false, ◌==◌, ltb, if◌then◌else◌, u8,
}

-- The bytes at each address.
abbrev pub Bytes : Type 0
Bytes = ℕ → ℕ

-- The fields of a packed structure, lowest byte first.
abbrev pub word16 : Bytes → ℕ → ℕ
word16 m p = m p + m (p + 1) * 2 ^ 8

abbrev pub word32 : Bytes → ℕ → ℕ
word32 m p = word16 m p + word16 m (p + 2) * 2 ^ 16

abbrev pub word64 : Bytes → ℕ → ℕ
word64 m p = word32 m p + word32 m (p + 4) * 2 ^ 32

-- `d[i] = v`
unfoldable pub poke : Bytes → ℕ → ℕ → Bytes
poke m a v x = if x == a then v else m x

-- for (i = i0; i < i0 + n; i++) d[i] = s[i]
copy_up : ℕ → ℕ → (dest src : ℕ) → Bytes → Bytes
copy_up zero i dest src m = m
copy_up (suc n) i dest src m = copy_up n (i + 1) dest src (poke m (dest + i) (m (src + i)))

-- for (i = n; i > 0; i--) d[i - 1] = s[i - 1]
copy_down : ℕ → (dest src : ℕ) → Bytes → Bytes
copy_down zero dest src m = m
copy_down (suc i) dest src m = copy_down i dest src (poke m (dest + i) (m (src + i)))

-- Returns `dest`; the memory is the result here.
unfoldable pub memcpy : (dest src n : ℕ) → Bytes → Bytes
unfolding copy_up poke
memcpy dest src n m = copy_up n 0 dest src m

unfoldable pub memmove : (dest src n : ℕ) → Bytes → Bytes
unfolding copy_up copy_down poke
memmove dest src n m = if ltb dest src then copy_up n 0 dest src m else copy_down n dest src m

fill_up : ℕ → ℕ → (dest val : ℕ) → Bytes → Bytes
fill_up zero i dest val m = m
fill_up (suc n) i dest val m = fill_up n (i + 1) dest val (poke m (dest + i) (u8 val))

unfoldable pub memset : (dest val n : ℕ) → Bytes → Bytes
unfolding fill_up poke
memset dest val n m = fill_up n 0 dest val m

-- The three results of `memcmp`: -1, 0 and 1.
pub data Sign : Type 0 where
  minus same plus : Sign

compare_up : ℕ → ℕ → (a b : ℕ) → Bytes → Sign
compare_up zero i a b m = same
compare_up (suc n) i a b m =
    let rest = compare_up n (i + 1) a b m in
    if ltb (m (a + i)) (m (b + i))
    then minus
    else if ltb (m (b + i)) (m (a + i))
    then plus
    else rest

unfoldable pub memcmp : (a b n : ℕ) → Bytes → Sign
unfolding compare_up
memcmp a b n m = compare_up n 0 a b m
