-- ===== src/Vnode.antt =====
-- ece344/os161/kern/fs/vfs/vnode.c: the reference and open counts of a vnode.
-- `vn_countlock` brackets each change of a count, so an operation is one step. The operations of
-- the file system, VOP_RECLAIM and VOP_CLOSE, belong to the vnode's table: whether one is called is
-- part of the result. Left out: the file system's data, and vnode_check, which only panics.
pub mod Lifetime
mod Tests
use harvard_os161_operating.Prelude.{
  ◌>>=◌, ◌>>◌, guard, int_limit, ℕ, ◌+◌, ◌-◌, Bool, true, false, not, Option, none, some, List, [],
  ◌∷◌, ltb, ◌==◌, if◌then◌else◌,
}

-- `struct vnode`
pub record Vnode : Type 0 where
  pub refcount : ℕ
  pub opencount : ℕ

-- `vnode_init`, with the result of `lock_create`.
pub vnode_init : Bool → Option Vnode
vnode_init mem = if mem then some (record { refcount = 1; opencount = 0 }) else none

-- `vnode_kill` asserts that one reference is left and nothing is open.
pub vnode_kill : Vnode → Option Vnode
vnode_kill vn = do
  guard (vn.refcount == 1)
  guard (vn.opencount == 0)
  some (record { refcount = 0; opencount = 0 })

pub vnode_incref : Vnode → Option Vnode
vnode_incref vn =
    guard (ltb (vn.refcount + 1) int_limit) >> some (record vn { refcount = vn.refcount + 1 })

-- The vnode, and whether `VOP_RECLAIM` is called. The last reference is left to that.
pub vnode_decref : Vnode → Option (Vnode × Bool)
vnode_decref vn =
    guard (ltb 0 vn.refcount)
    >> (if ltb 1 vn.refcount
        then some (record vn { refcount = vn.refcount - 1 }, false)
        else some (vn, true))

pub vnode_incopen : Vnode → Option Vnode
vnode_incopen vn =
    guard (ltb (vn.opencount + 1) int_limit) >> some (record vn { opencount = vn.opencount + 1 })

-- The vnode, and whether `VOP_CLOSE` is called.
pub vnode_decopen : Vnode → Option (Vnode × Bool)
vnode_decopen vn =
    guard (ltb 0 vn.opencount)
    >> some (record vn { opencount = vn.opencount - 1 }, not (ltb 0 (vn.opencount - 1)))

-- What the users of a vnode do with it.
pub data Use : Type 0 where
  incref decref incopen decopen : Use

-- Those operations in turn, until one calls `VOP_RECLAIM`: the vnode, whether that happened, and
-- how often `VOP_CLOSE` was called.
pub run : List Use → Vnode → Option (Vnode × Bool × ℕ)
run [] vn = some (vn, false, 0)
run (incref ∷ us) vn = vnode_incref vn >>= λ vn'. run us vn'
run (decref ∷ us) vn =
    vnode_decref vn >>= λ r. elim r.1 [ true ↦ some (r.0, true, 0) | false ↦ run us (r.0) ]
run (incopen ∷ us) vn = vnode_incopen vn >>= λ vn'. run us vn'
run (decopen ∷ us) vn =
    vnode_decopen vn >>= λ r. run us (r.0) >>= λ x. some (x.0, x.1, if r.1 then x.2 + 1 else x.2)
