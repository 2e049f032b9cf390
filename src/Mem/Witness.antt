-- ===== src/Mem/Witness.antt =====
-- kernel/mem.c: the theorems at concrete memories.
use neko_os_c.Prelude.{◌≡◌, refl}
use neko_os_c.Mem.{Bytes, memcpy, memmove, memcmp}
use neko_os_c.Mem.Copy.{moved, Verdict, memmove-moved, memcmp-Verdict}

-- Each address holds its own number.
abbrev ramp : Bytes
ramp = λ x. x

-- A copy upwards over itself repeats bytes, which memmove avoids.
memcpy_smears : memcpy 2 0 4 ramp 4 ≡ 0
unfolding memcpy
memcpy_smears = refl

memmove_keeps : memmove 2 0 4 ramp 4 ≡ 2
unfolding memmove
memmove_keeps = refl

memmove-moved_example : memmove 12 10 4 ramp ≡ moved 12 10 4 ramp
memmove-moved_example = memmove-moved 12 10 4 ramp

memcmp-Verdict_example : Verdict 3 5 4 ramp (memcmp 3 5 4 ramp)
memcmp-Verdict_example = memcmp-Verdict 3 5 4 ramp
