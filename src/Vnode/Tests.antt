-- ===== src/Vnode/Tests.antt =====
-- A vnode of kern/fs/vfs/vnode.c that is shared once and opened once.
use harvard_os161_operating.Prelude.{ℕ, ◌≡◌, true, some, List, [], ◌∷◌, arith}
use harvard_os161_operating.Vnode.{Use, incref, decref, incopen, decopen, vnode_kill, run}
use harvard_os161_operating.Vnode.Lifetime.{
  Balanced, last_drop, shares, drops, opens_more, closes, run-reclaims,
}

abbrev uses : List Use
uses = incref ∷ incopen ∷ decref ∷ decopen ∷ decref ∷ []

uses-Balanced : Balanced 1 0 uses
uses-Balanced = shares (opens_more (drops (omega arith) (closes last_drop)))

run-reclaims_example :
    (closed : ℕ) × (run uses (record { refcount = 1; opencount = 0 })
      ≡ some (record { refcount = 1; opencount = 0 }, true, closed))
    × (vnode_kill (record { refcount = 1; opencount = 0 })
        ≡ some (record { refcount = 0; opencount = 0 }))
run-reclaims_example = run-reclaims 1 0 uses uses-Balanced (omega arith)
