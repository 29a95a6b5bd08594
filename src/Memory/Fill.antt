-- ===== src/Memory/Fill.antt =====
-- memset.c and bzero.c of lib/libc.
use harvard_os161_operating.Prelude.{
  ℕ, zero, suc, ◌+◌, ◌*◌, ◌/◌, ◌%◌, ◌≡◌, refl, inl, inr, ◌&&◌, arith, if◌then◌else◌, Bool-cases,
}
use harvard_os161_operating.Memory.{Memory, within, is_aligned, put, fill_up, memset, bzero}

fill_up_lem :
    (w n i p v : ℕ) (m : Memory) (a : ℕ)
    → fill_up w n i p v m a ≡ (if within (p + i * w) (n * w) a then v else m a)
unfolding fill_up
fill_up_lem w zero i p v m a = ground arith
fill_up_lem w (suc n) i p v m a =
    ground (arith, fill_up_lem w n (i + 1) p v (put w m (p + i * w) v) a)

-- `memset` writes the low byte of `ch` to the block, and nothing else.
pub memset_lem :
    (m : Memory) (ptr ch len a : ℕ)
    → memset m ptr ch len a ≡ (if within ptr len a then ch % 256 else m a)
unfolding memset
memset_lem m ptr ch len a = ground (arith, fill_up_lem 1 len 0 ptr (ch % 256) m a)

-- `bzero`, by words or by bytes, does what `memset` to 0 does.
pub bzero-memset : (m : Memory) (block len a : ℕ) → bzero m block len a ≡ memset m block 0 len a
unfolding bzero memset
bzero-memset m block len a = elim (Bool-cases (is_aligned block && is_aligned len)) [
  | inl even ↦
      ground (arith, fill_up_lem 4 (len / 4) 0 block 0 m a, fill_up_lem 1 len 0 block 0 m a)
  | inr odd ↦ rw odd refl
]
