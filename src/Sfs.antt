-- ===== src/Sfs.antt =====
-- ece344/os161/kern/fs/sfs: sfs_io.c, and the blocks of a file in sfs_vnode.c.
-- A block is a function from offsets to bytes; words in it are big-endian. The device is not
-- modelled: `results` holds what its next calls of `d_io` return, and after these every call
-- succeeds. A call that succeeds transfers its block; one that fails leaves the disk as it is.
-- A number or block that the code hands back through a pointer is part of the result, and means
-- nothing where the status is an error. `none` is a panic or a failed assertion.
pub mod Words
pub mod Device
pub mod Space
pub mod File
pub mod Grow
pub mod Map
pub mod MapDirect
pub mod MapSteps
pub mod MapIndirect
pub mod Bmap
pub mod Truncate
mod Tests
use harvard_os161_operating.Prelude.{
  Status, success, einval, enospc, eio, ◌>>=◌, ◌>>◌, guard, is_success, ℕ, zero, suc, ◌+◌, ◌-◌, ◌*◌,
  ◌/◌, ◌%◌, ◌^◌, Bool, true, ◌&&◌, Option, none, some, List, [], ◌∷◌, ltb, ◌==◌, if◌then◌else◌,
  get_elem?, set,
}
use harvard_os161_operating.Memory.{Memory}
use harvard_os161_operating.Bitmap
use harvard_os161_operating.Bitmap.{Bitmap, allocated, no_space}

-- `struct sfs_fs`, with its device.
pub record Fs : Type 0 where
  pub disk : ℕ → Memory
  pub results : List Status
  pub nblocks : ℕ
  pub freemap : Bitmap.Bitmap
  pub freemap_dirty : Bool

-- `struct sfs_inode`
pub record Inode : Type 0 where
  pub size : ℕ
  pub file_type : ℕ
  pub linkcount : ℕ
  pub direct : List ℕ
  pub indirect : ℕ

-- `struct sfs_vnode`
pub record SfsVnode : Type 0 where
  pub ino : ℕ
  pub inode : Inode
  pub dirty : Bool

-- Word `i` of a block of 32-bit words.
pub word : Memory → ℕ → ℕ
word m i = m (4 * i) * 2 ^ 24 + m (4 * i + 1) * 2 ^ 16 + m (4 * i + 2) * 2 ^ 8 + m (4 * i + 3)

-- Byte `k` of a word.
pub byte_of : ℕ → ℕ → ℕ
byte_of w k =
    if k == 0
    then w / 2 ^ 24 % 256
    else if k == 1
    then w / 2 ^ 16 % 256
    else if k == 2
    then w / 2 ^ 8 % 256
    else w % 256

pub put_word : Memory → ℕ → ℕ → Memory
put_word m i w a = if a / 4 == i then byte_of w (a % 4) else m a

abbrev pub put_block : (ℕ → Memory) → ℕ → Memory → ℕ → Memory
put_block disk b content k = if k == b then content else disk k

abbrev pub zeros : Memory
zeros a = 0

-- What `d_io` returns.
pub d_io : Fs → Status × Fs
d_io fs = elim fs.results [ [] ↦ (success, fs) | r ∷ rest ↦ (r, record fs { results = rest }) ]

-- `sfs_rwblock`, with `tries` retries left of 10: EINVAL is a panic, EIO is tried again.
pub rwblock : ℕ → Fs → Option (Status × Fs)
rwblock zero fs = elim (d_io fs).0 [ einval ↦ none | r ↦ some (r, (d_io fs).1) ]
rwblock (suc tries) fs = elim (d_io fs).0 [
  | einval ↦ none
  | eio ↦ rwblock tries (d_io fs).1
  | r ↦ some (r, (d_io fs).1)
]

-- `sfs_rblock`: the block that was read, if the status says so.
pub rblock : Fs → ℕ → Option (Status × Memory × Fs)
rblock fs b = rwblock 10 fs >>= λ x. some (x.0, fs.disk b, x.1)

-- `sfs_wblock`
pub wblock : Fs → Memory → ℕ → Option (Status × Fs)
wblock fs content b = rwblock 10 fs >>= λ x.
    some (x.0, if is_success x.0 then record (x.1) { disk = put_block fs.disk b content } else x.1)

-- `sfs_balloc`: the block that was allocated and cleared.
pub balloc : Fs → Option (Status × ℕ × Fs)
balloc fs = Bitmap.alloc fs.freemap >>= λ a. elim a [
  | no_space ↦ some (enospc, 0, fs)
  | allocated b map ↦
      guard (ltb b fs.nblocks)
      >> (wblock (record fs { freemap = map; freemap_dirty = true }) zeros b >>= λ x.
          some (x.0, b, x.1))
]

-- `sfs_bfree`
pub bfree : Fs → ℕ → Option Fs
bfree fs b =
    Bitmap.unmark fs.freemap b >>= λ map. some (record fs { freemap = map; freemap_dirty = true })

-- `sfs_bused`
pub bused : Fs → ℕ → Option Bool
bused fs b = guard (ltb b fs.nblocks) >> Bitmap.isset fs.freemap b

-- What `sfs_bmap` returns, and what it hands back.
abbrev pub Mapped : Type 0
Mapped = Status × ℕ × SfsVnode × Fs

-- "Hand back the block": it is marked used, or 0.
pub hand_back : ℕ → SfsVnode → Fs → Option Mapped
hand_back block sv fs =
    if block == 0
    then some (success, block, sv, fs)
    else (bused fs block >>= λ used. guard used >> some (success, block, sv, fs))

-- `sv->sv_i.sfi_direct[fileblock] = block; sv->sv_dirty = 1;`
abbrev pub set_direct : SfsVnode → ℕ → ℕ → SfsVnode
set_direct sv fileblock block = record sv {
  inode = record (sv.inode) { direct = set sv.inode.direct fileblock block };
  dirty = true;
}

-- `sv->sv_i.sfi_indirect = idblock; sv->sv_dirty = 1;`
abbrev pub set_indirect : SfsVnode → ℕ → SfsVnode
set_indirect sv idblock = record sv {
  inode = record (sv.inode) { indirect = idblock };
  dirty = true;
}

-- The direct blocks.
pub bmap_direct : Fs → SfsVnode → ℕ → Bool → Option Mapped
bmap_direct fs sv fileblock doalloc = get_elem? sv.inode.direct fileblock >>= λ block.
    if block == 0 && doalloc
    then (balloc fs >>= λ x.
        if is_success x.0
        then hand_back (x.1) (set_direct sv fileblock (x.1)) (x.2)
        else some (x.0, 0, sv, x.2))
    else hand_back block sv fs

-- From "Get the block out of the indirect block buffer".
pub bmap_through : Fs → SfsVnode → ℕ → Memory → ℕ → Bool → Option Mapped
bmap_through fs sv idblock idbuf idoff doalloc =
    if word idbuf idoff == 0 && doalloc
    then (balloc fs >>= λ x.
        if is_success x.0
        then (wblock (x.2) (put_word idbuf idoff (x.1)) idblock >>= λ y.
            if is_success y.0 then hand_back (x.1) sv (y.1) else some (y.0, 0, sv, y.1))
        else some (x.0, 0, sv, x.2))
    else hand_back (word idbuf idoff) sv fs

-- The indirect block is absent, made, or read.
pub bmap_indirect : Fs → SfsVnode → ℕ → Bool → Option Mapped
bmap_indirect fs sv idoff doalloc =
    if sv.inode.indirect == 0
    then (if doalloc
        then (balloc fs >>= λ x.
            if is_success x.0
            then bmap_through (x.2) (set_indirect sv (x.1)) (x.1) zeros idoff doalloc
            else some (x.0, 0, sv, x.2))
        else some (success, 0, sv, fs))
    else (rblock fs sv.inode.indirect >>= λ x.
        if is_success x.0
        then bmap_through (x.2) sv sv.inode.indirect (x.1) idoff doalloc
        else some (x.0, 0, sv, x.2))

-- `sfs_bmap`
pub bmap : Fs → SfsVnode → ℕ → Bool → Option Mapped
bmap fs sv fileblock doalloc =
    if ltb fileblock 15
    then bmap_direct fs sv fileblock doalloc
    else if ltb 0 ((fileblock - 15) / 128)
    then some (einval, 0, sv, fs)
    else bmap_indirect fs sv ((fileblock - 15) % 128) doalloc
