-- ===== src/Uio.antt =====
-- ece344/os161/kern/userprog/uio.c: moving data between a kernel buffer and what a `struct uio`
-- describes. Left out: the address space, which the code only compares, and its panics on values
-- that are none of the enumerations. `fault` is as in Copyinout. `uio_offset` is an `int32_t`, and
-- here the word of 32 bits that stands for it; adding a `size_t` to it wraps around.
pub mod Move
pub mod Zeros
mod Tests
use harvard_os161_operating.Prelude.{
  Status, success, ◌>>=◌, ◌>>◌, guard, u32_mod, is_success, ℕ, zero, suc, ◌+◌, ◌-◌, ◌%◌, Bool, true,
  false, ◌&&◌, Option, none, some, ltb, if◌then◌else◌,
}
use harvard_os161_operating.Memory.{Memory, memmove}
use harvard_os161_operating.Copyinout.{copyin, copyout}

-- `struct uio` with its `struct iovec`: `base` is a kernel or a user address.
pub record Uio : Type 0 where
  pub base : ℕ
  pub iov_len : ℕ
  pub offset : ℕ
  pub resid : ℕ
  pub is_user : Bool
  pub is_read : Bool

-- The `switch` on `uio_segflg`: data goes to the `uio` for a read, and comes from it for a write.
pub move_part : Option Memory → Memory → ℕ → ℕ → Uio → Status × Memory
move_part fault m ptr size uio =
    if uio.is_user
    then (if uio.is_read
        then copyout fault m ptr uio.base size
        else copyin fault m uio.base ptr size)
    else (success, if uio.is_read then memmove m uio.base ptr size else memmove m ptr uio.base size)

-- `uio` after `size` bytes; `uio_resid` is unsigned, and `uio_offset += size` is a sum of unsigned
-- words.
pub advance : ℕ → Uio → Uio
advance size uio = record uio {
  base = uio.base + size;
  iov_len = uio.iov_len - size;
  resid = (uio.resid + u32_mod - size) % u32_mod;
  offset = (uio.offset + size) % u32_mod;
}

-- `size = iov->iov_len; if (size > n) size = n;`
abbrev pub part_size : ℕ → Uio → ℕ
part_size n uio = if ltb n uio.iov_len then n else uio.iov_len

-- The loop of `uiomove`. Each round takes one byte at least, so `n` rounds are enough. A part of
-- size 0 is a panic.
pub uiomove_from : ℕ → Option Memory → Memory → ℕ → ℕ → Uio → Option (Status × Memory × Uio)
uiomove_from zero fault m ptr n uio =
    if ltb 0 n && ltb 0 uio.resid then none else some (success, m, uio)
uiomove_from (suc fuel) fault m ptr n uio =
    let size = part_size n uio in
    let moved = move_part fault m ptr size uio in
    let rest = uiomove_from fuel fault moved.1 (ptr + size) (n - size) (advance size uio) in
    if ltb 0 n && ltb 0 uio.resid
    then guard (ltb 0 size) >> (if is_success moved.0 then rest else some (moved.0, moved.1, uio))
    else some (success, m, uio)

pub uiomove : Option Memory → Memory → ℕ → ℕ → Uio → Option (Status × Memory × Uio)
uiomove fault m ptr n uio = uiomove_from n fault m ptr n uio

-- `amt = sizeof(zeros); if (amt > n) amt = n;`
abbrev pub zeros_size : ℕ → ℕ
zeros_size n = if ltb n 16 then n else 16

-- The loop of `uiomovezeros`, whose static buffer stands at `zbuf`. Each round takes one byte at
-- least, so `n` rounds are enough.
pub uiomovezeros_from : ℕ → Option Memory → Memory → ℕ → ℕ → Uio → Option (Status × Memory × Uio)
uiomovezeros_from zero fault m zbuf n uio = if ltb 0 n then none else some (success, m, uio)
uiomovezeros_from (suc fuel) fault m zbuf n uio = elim (ltb 0 n) [
  | false ↦ some (success, m, uio)
  | true ↦ uiomove fault m zbuf (zeros_size n) uio >>= λ x. elim (is_success x.0) [
    | true ↦ uiomovezeros_from fuel fault (x.1) zbuf (n - zeros_size n) (x.2)
    | false ↦ some x
  ]
]

pub uiomovezeros : Option Memory → Memory → ℕ → ℕ → Uio → Option (Status × Memory × Uio)
uiomovezeros fault m zbuf n uio = guard uio.is_read >> uiomovezeros_from n fault m zbuf n uio

-- `mk_kuio`
pub mk_kuio : ℕ → ℕ → ℕ → Bool → Uio
mk_kuio kbuf len pos is_read = record {
  base = kbuf;
  iov_len = len;
  offset = pos;
  resid = len;
  is_user = false;
  is_read = is_read;
}
