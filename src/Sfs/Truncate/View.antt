-- ===== src/Sfs/Truncate/View.antt =====
-- The file system as `sfs_truncate` of kern/fs/sfs/sfs_vnode.c sees it: with the indirect block as its
-- buffer has it.
use std.Path.{fun_ext}
use mathlib.Core.Path.{subst}
use harvard_os161_operating.Prelude.{
  Status, ℕ, ◌≡◌, refl, sym, ap, Bool, List, ℕ_discrete, eq→==, ne→==,
}
use harvard_os161_operating.Memory.{Memory}
use harvard_os161_operating.Sfs.{Fs, SfsVnode, put_block}
use harvard_os161_operating.Sfs.Device.{Sound}
use harvard_os161_operating.Sfs.Space.{HasSpace}
use harvard_os161_operating.Sfs.File.{IsFile, block_of, later-IsFile}
use harvard_os161_operating.Sfs.Truncate.{set_size}
use harvard_os161_operating.Sfs.Truncate.Cut.{Cut}

abbrev pub view : Fs → ℕ → Memory → Fs
view fs idblock idbuf = record fs { disk = put_block fs.disk idblock idbuf }

pub put_block-same : (disk : ℕ → Memory) (b : ℕ) → put_block disk b (disk b) ≡ disk
put_block-same disk b = fun_ext (λ k. elim (ℕ_discrete k b) [
  | yes e ↦ rw (eq→== k b e) (ap disk (sym e))
  | no ne ↦ rw (ne→== k b ne) refl
])

pub disk-HasSpace :
    (fs : Fs) (disk : ℕ → Memory) → HasSpace fs → HasSpace (record fs { disk = disk })
disk-HasSpace fs disk space = record {
  map = space.map;
  covers = space.covers;
  beyond = space.beyond;
  sound = space.sound;
}

-- A buffer that was just read shows what there is.
pub view-IsFile :
    (fs : Fs) (sv : SfsVnode) (b : ℕ) → IsFile fs sv → IsFile (view fs b (fs.disk b)) sv
view-IsFile fs sv b v =
    subst (λ d. IsFile (record fs { disk = d }) sv) (sym (put_block-same fs.disk b)) v

-- What is left when the work is done: the device gave some results, and the size is set.
pub settle-Cut :
    (gone : ℕ → Bool) (fs : Fs) (sv : SfsVnode) (fs' : Fs) (sv' : SfsVnode) (later : List Status)
    (len : ℕ)
    → Sound later
    → Cut gone fs sv fs' sv'
    → Cut gone fs sv (record fs' { results = later }) (set_size len sv')
unfolding set_size block_of
settle-Cut gone fs sv fs' sv' later len sound c = record {
  valid = later-IsFile fs' sv' (set_size len sv') later c.valid sound refl refl;
  blocks = c.blocks;
  freed = c.freed;
  stay = c.stay;
  free_still = c.free_still;
  ind = c.ind;
}
