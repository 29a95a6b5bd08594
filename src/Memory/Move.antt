-- ===== src/Memory/Move.antt =====
-- memcpy.c and memmove.c of lib/libc: the bytes that the loops leave.
use harvard_os161_operating.Prelude.{
  ℕ, zero, suc, ◌+◌, ◌-◌, ◌*◌, ◌/◌, ◌≤◌, ◌≡◌, ◌⊎◌, inl, inr, true, ◌&&◌, arith, dec_lt,
  if◌then◌else◌, Bool-cases,
}
use harvard_os161_operating.Memory.{
  Memory, within, assign, copy_up, copy_down, is_aligned, memcpy, memmove,
}

-- The block at `d` holds what stood at `s`, and nothing else has changed.
abbrev pub Moved : Memory → Memory → ℕ → ℕ → ℕ → Type 0
Moved m m' d s len = (a : ℕ) → m' a ≡ (if within d len a then m (s + (a - d)) else m a)

copy_up_lem :
    (w n i d s : ℕ) (m : Memory) (a : ℕ)
    → d + w ≤ s
    → copy_up w n i d s m a ≡ (if within (d + i * w) (n * w) a then m (s + (a - d)) else m a)
unfolding copy_up
copy_up_lem w zero i d s m a h = ground arith
copy_up_lem w (suc n) i d s m a h =
    ground (arith, copy_up_lem w n (i + 1) d s (assign w m (d + i * w) (s + i * w)) a h)

copy_down_lem :
    (w i d s : ℕ) (m : Memory) (a : ℕ)
    → (s + w ≤ d) ⊎ (s ≡ d)
    → copy_down w i d s m a ≡ (if within d (i * w) a then m (s + (a - d)) else m a)
unfolding copy_down
copy_down_lem w zero d s m a h = ground arith
copy_down_lem w (suc i) d s m a h =
    ground (arith, copy_down_lem w i d s (assign w m (d + i * w) (s + i * w)) a h)

-- The block of bytes is the block of words.
words : (len : ℕ) → is_aligned len ≡ true → len / 4 * 4 ≡ len
words len h = ground arith

-- `memmove` moves a block as if all of it were read before any of it is written: the destination
-- holds the bytes that stood at the source, and no other byte has changed, for blocks that overlap
-- in either direction too, by words and by bytes.
pub memmove-Moved : (m : Memory) (dst src len : ℕ) → Moved m (memmove m dst src len) dst src len
unfolding memmove memcpy
memmove-Moved m dst src len a = elim (dec_lt dst src) [
  | yes up ↦ elim (Bool-cases (is_aligned dst && is_aligned src && is_aligned len)) [
    | inl even ↦ ground (arith, copy_up_lem 4 (len / 4) 0 dst src m a, words len)
    | inr odd ↦ ground (arith, copy_up_lem 1 len 0 dst src m a)
  ]
  | no down ↦ elim (Bool-cases (is_aligned dst && is_aligned src && is_aligned len)) [
    | inl even ↦ ground (arith, copy_down_lem 4 (len / 4) dst src m a, words len)
    | inr odd ↦ ground (arith, copy_down_lem 1 len dst src m a)
  ]
]

copy_up_apart :
    (w n i d s : ℕ) (m : Memory) (a : ℕ)
    → (d + (i * w + n * w) ≤ s) ⊎ (s + (i * w + n * w) ≤ d)
    → copy_up w n i d s m a ≡ (if within (d + i * w) (n * w) a then m (s + (a - d)) else m a)
unfolding copy_up
copy_up_apart w zero i d s m a h = ground arith
copy_up_apart w (suc n) i d s m a h =
    ground (arith, copy_up_apart w n (i + 1) d s (assign w m (d + i * w) (s + i * w)) a)

-- `memcpy` of blocks that do not overlap moves the block: the destination holds the bytes of the
-- source, and no other byte has changed.
pub memcpy-Moved :
    (m : Memory) (dst src len : ℕ)
    → (dst + len ≤ src) ⊎ (src + len ≤ dst)
    → Moved m (memcpy m dst src len) dst src len
unfolding memcpy
memcpy-Moved m dst src len apart a =
    elim (Bool-cases (is_aligned dst && is_aligned src && is_aligned len)) [
      | inl even ↦ ground (arith, copy_up_apart 4 (len / 4) 0 dst src m a, words len)
      | inr odd ↦ ground (arith, copy_up_apart 1 len 0 dst src m a)
    ]
