-- ===== src/Uio/Move.antt =====
-- `uiomove` of kern/userprog/uio.c moves as much as there is room for.
use harvard_os161_operating.Prelude.{
  success, ℕ, zero, suc, ◌+◌, ◌-◌, ◌%◌, ◌^◌, ◌≤◌, ◌<◌, ◌≡◌, refl, ◌⊎◌, inl, inr, true, false,
  Option, none, some, arith, dec_lt, ltb, if◌then◌else◌, lt→ltb, Bool-cases,
}
use harvard_os161_operating.Memory.{Memory, memmove}
use harvard_os161_operating.Memory.Move.{Moved, memmove-Moved}
use harvard_os161_operating.Uio.{Uio, move_part, advance, part_size, uiomove_from, uiomove}

-- With nothing to move, or nothing left to move it to, the loop ends.
uiomove_from-end :
    (fuel : ℕ) (fault : Option Memory) (m : Memory) (ptr n : ℕ) (uio : Uio)
    → (n ≡ 0) ⊎ (uio.resid ≡ 0)
    → uiomove_from fuel fault m ptr n uio ≡ some (success, m, uio)
unfolding uiomove_from
uiomove_from-end zero fault m ptr n uio h = ground arith
uiomove_from-end (suc fuel) fault m ptr n uio h = ground arith

-- The bytes that go from one place to the other, by the direction of the transfer.
abbrev pub Transferred : Memory → Memory → ℕ → Uio → ℕ → Type 0
Transferred m r ptr uio size =
    Moved m r (if uio.is_read then uio.base else ptr) (if uio.is_read then ptr else uio.base) size

-- The number of bytes that there are and that there is room for.
abbrev pub transfer_size : ℕ → Uio → ℕ
transfer_size n uio = if ltb n uio.resid then n else uio.resid

part-Transferred :
    (m : Memory) (ptr size : ℕ) (uio : Uio)
    → uio.is_user ≡ false
    → (r : Memory) × (move_part none m ptr size uio ≡ (success, r)) × Transferred m r ptr uio size
unfolding move_part
part-Transferred m ptr size uio kernel = elim (Bool-cases uio.is_read) [
  | inl reads ↦ (
    memmove m uio.base ptr size,
    rw (kernel, reads) refl,
    rw reads (memmove-Moved m uio.base ptr size),
  )
  | inr writes ↦ (
    memmove m ptr uio.base size,
    rw (kernel, writes) refl,
    rw writes (memmove-Moved m ptr uio.base size),
  )
]

-- After that nothing is left on one side.
exhausted :
    (n : ℕ) (uio : Uio)
    → uio.resid < 2 ^ 32
    → (n - transfer_size n uio ≡ 0) ⊎ ((advance (transfer_size n uio) uio).resid ≡ 0)
unfolding advance
exhausted n uio small = elim (dec_lt n uio.resid) [
  | yes more ↦ inl (ground arith)
  | no all ↦ inr (ground arith)
]

-- What a transfer of `size` bytes does to the `uio`.
pub record Advanced (uio after : Uio) (size : ℕ) : Type 0 where
  pub at_base : after.base ≡ uio.base + size
  pub shorter : after.iov_len + size ≡ uio.iov_len
  pub left : after.resid + size ≡ uio.resid
  pub at_offset : after.offset ≡ (uio.offset + size) % 2 ^ 32
  pub same_user : after.is_user ≡ uio.is_user
  pub same_read : after.is_read ≡ uio.is_read

advance-Advanced :
    (size : ℕ) (uio : Uio)
    → size ≤ uio.iov_len
    → size ≤ uio.resid
    → uio.resid < 2 ^ 32
    → Advanced uio (advance size uio) size
unfolding advance
advance-Advanced size uio fits room small = record {
  at_base = refl;
  shorter = omega arith;
  left = omega arith;
  at_offset = refl;
  same_user = refl;
  same_read = refl;
}

-- The transfer, with the `uio` as the loop leaves it.
pub uiomove_runs :
    (m : Memory) (ptr n : ℕ) (uio : Uio)
    → uio.is_user ≡ false
    → uio.iov_len ≡ uio.resid
    → 0 < uio.resid
    → uio.resid < 2 ^ 32
    → 0 < n
    → (r : Memory) × (uiomove none m ptr n uio
        ≡ some (success, r, advance (transfer_size n uio) uio))
      × Transferred m r ptr uio (transfer_size n uio)
unfolding uiomove uiomove_from
uiomove_runs m ptr zero uio kernel exact room small some_bytes = absurd (omega arith)
uiomove_runs m ptr (suc k) uio kernel exact room small some_bytes =
    let size : ℕ = transfer_size (suc k) uio in
    let (r, moved, transferred) = part-Transferred m ptr size uio kernel in
    let part : part_size (suc k) uio ≡ size = ground (arith, exact) in
    let positive : ltb 0 size ≡ true = ground arith in
    let done = exhausted (suc k) uio small in
    (
      r,
      rw (part, moved, lt→ltb 0 (suc k) (omega arith), lt→ltb 0 uio.resid room, positive)
          (uiomove_from-end k none r (ptr + size) (suc k - size) (advance size uio) done),
      transferred,
    )

-- `uiomove` of a positive number of bytes, where a kernel `uio` has room for as many as it says (a
-- positive number too), does not panic and returns 0: the smaller of the two numbers is moved, in the
-- direction of the `uio` and also where the buffers overlap, and no other byte changes. The address,
-- the length and the count of bytes left in the `uio` move on by that number, the offset modulo 2^32,
-- and its kind and direction stay.
pub uiomove_lem :
    (m : Memory) (ptr n : ℕ) (uio : Uio)
    → uio.is_user ≡ false
    → uio.iov_len ≡ uio.resid
    → 0 < uio.resid
    → uio.resid < 2 ^ 32
    → 0 < n
    → (r : Memory) × (after : Uio) × (uiomove none m ptr n uio ≡ some (success, r, after))
      × Transferred m r ptr uio (transfer_size n uio)
      × Advanced uio after (transfer_size n uio)
uiomove_lem m ptr n uio kernel exact room small some_bytes =
    let (r, runs, transferred) = uiomove_runs m ptr n uio kernel exact room small some_bytes in
    let fits : transfer_size n uio ≤ uio.resid = ground arith in
    (
      r,
      advance (transfer_size n uio) uio,
      runs,
      transferred,
      advance-Advanced (transfer_size n uio) uio (omega (arith, fits, exact)) fits small,
    )
