-- ===== src/Memory/Tests.antt =====
-- Runs of the block functions of lib/libc, and the theorems at concrete inputs.
use harvard_os161_operating.Prelude.{◌%◌, ◌≡◌, refl}
use harvard_os161_operating.Memory.{
  differ, Memory, copy_up, copy_down, memcpy, memmove, compare_from, memcmp,
}
use harvard_os161_operating.Memory.Move.{Moved, memmove-Moved}

abbrev ramp : Memory
ramp a = a % 256

moved_up : memmove ramp 14 12 5 16 ≡ 14
unfolding memmove copy_down
moved_up = refl

moved_words : memmove ramp 12 16 8 13 ≡ 17
unfolding memmove memcpy copy_up
moved_words = refl

differs_at_once : memcmp ramp 4 5 3 ≡ differ 4 5
unfolding memcmp compare_from
differs_at_once = refl

memmove-Moved_example : Moved ramp (memmove ramp 16 12 8) 16 12 8
memmove-Moved_example = memmove-Moved ramp 16 12 8
