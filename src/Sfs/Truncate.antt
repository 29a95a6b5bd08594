-- ===== src/Sfs/Truncate.antt =====
-- `sfs_truncate` of ece344/os161/kern/fs/sfs/sfs_vnode.c.
pub mod Unlink
pub mod Cut
pub mod Direct
pub mod View
pub mod Words
pub mod Shorten
pub mod Finish
use harvard_os161_operating.Prelude.{
  Status, success, ◌>>=◌, ◌>>◌, guard, int_limit, is_success, ℕ, zero, suc, ◌+◌, ◌/◌, Bool, true,
  false, ◌&&◌, ◌||◌, not, Option, some, ltb, leb, ◌==◌, if◌then◌else◌, get_elem?,
}
use harvard_os161_operating.Memory.{Memory}
use harvard_os161_operating.Sfs.{
  Fs, SfsVnode, word, put_word, rblock, wblock, bfree, set_direct, set_indirect,
}

-- `for (i=0; i<SFS_NDIRECT; i++)`, from `i` with `n` rounds left.
pub truncate_direct : ℕ → ℕ → ℕ → SfsVnode → Fs → Option (SfsVnode × Fs)
truncate_direct zero i blocklen sv fs = some (sv, fs)
truncate_direct (suc n) i blocklen sv fs = get_elem? sv.inode.direct i >>= λ block.
    elim (leb blocklen i && not (block == 0)) [
      | true ↦ bfree fs block >>= λ fs'. truncate_direct n (i + 1) blocklen (set_direct sv i 0) fs'
      | false ↦ truncate_direct n (i + 1) blocklen sv fs
    ]

-- The loop over the indirect block: `hasnonzero`, `iddirty`, the buffer, and the file system.
pub truncate_words : ℕ → ℕ → ℕ → Bool → Bool → Memory → Fs → Option (Bool × Bool × Memory × Fs)
truncate_words zero j blocklen hasnonzero iddirty idbuf fs = some (hasnonzero, iddirty, idbuf, fs)
truncate_words (suc n) j blocklen hasnonzero iddirty idbuf fs =
    elim (ltb blocklen (15 + j) && not (word idbuf j == 0)) [
      | true ↦ bfree fs (word idbuf j) >>= λ fs'.
          truncate_words n (j + 1) blocklen hasnonzero true (put_word idbuf j 0) fs'
      | false ↦
          truncate_words n (j + 1) blocklen (hasnonzero || not (word idbuf j == 0)) iddirty idbuf fs
    ]

-- "Set the file size" and "Mark the inode dirty".
pub set_size : ℕ → SfsVnode → SfsVnode
set_size len sv = record sv { inode = record (sv.inode) { size = len }; dirty = true }

-- What follows the loop over the indirect block.
pub truncate_end : ℕ → ℕ → SfsVnode → Bool × Bool × Memory × Fs → Option (Status × SfsVnode × Fs)
truncate_end len idblock sv x =
    if not x.0
    then (bfree (x.3) idblock >>= λ fs. some (success, set_size len (set_indirect sv 0), fs))
    else if x.1
    then (wblock (x.3) (x.2) idblock >>= λ y.
        if is_success y.0 then some (success, set_size len sv, y.1) else some (y.0, sv, y.1))
    else some (success, set_size len sv, x.3)

-- The part on the indirect block, whose last entry is that of block 142.
pub truncate_indirect : ℕ → ℕ → SfsVnode → Fs → Option (Status × SfsVnode × Fs)
truncate_indirect len blocklen sv fs =
    if ltb blocklen 142 && not (sv.inode.indirect == 0)
    then (rblock fs sv.inode.indirect >>= λ x.
        if is_success x.0
        then (truncate_words 128 0 blocklen false false (x.1) (x.2)
            >>= truncate_end len sv.inode.indirect sv)
        else some (x.0, sv, x.2))
    else some (success, set_size len sv, fs)

-- `sfs_truncate`; `off_t` is signed.
pub truncate : Fs → SfsVnode → ℕ → Option (Status × SfsVnode × Fs)
truncate fs sv len =
    guard (ltb (len + 511) int_limit)
    >> (truncate_direct 15 0 ((len + 511) / 512) sv fs >>= λ x.
        truncate_indirect len ((len + 511) / 512) (x.0) (x.1))
