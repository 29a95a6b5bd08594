-- ===== src/Vnode/Lifetime.antt =====
-- A vnode of kern/fs/vfs/vnode.c lives until the last of its users drops it.
use harvard_os161_operating.Prelude.{
  int_limit, ℕ, ◌+◌, ◌-◌, ◌^◌, ◌<◌, ◌≡◌, refl, true, not, some, List, [], ◌∷◌, arith, ltb,
  if◌then◌else◌, lt→ltb, length,
}
use harvard_os161_operating.Vnode.{
  Use, incref, decref, incopen, decopen, vnode_kill, vnode_incref, vnode_decref, vnode_incopen,
  vnode_decopen, run,
}

-- Uses in which no user drops what it does not hold or closes what is not open, from `refs`
-- references and `opens` open files, with the last reference dropped at the end and not before.
pub data Balanced : ℕ → ℕ → List Use → Type 0 where
  last_drop : Balanced 1 0 (decref ∷ [])
  shares :
      {refs opens : ℕ} {us : List Use}
      → Balanced (refs + 1) opens us
      → Balanced refs opens (incref ∷ us)
  drops :
      {refs opens : ℕ} {us : List Use}
      → 0 < refs
      → Balanced refs opens us
      → Balanced (refs + 1) opens (decref ∷ us)
  opens_more :
      {refs opens : ℕ} {us : List Use}
      → Balanced refs (opens + 1) us
      → Balanced refs opens (incopen ∷ us)
  closes :
      {refs opens : ℕ} {us : List Use}
      → Balanced refs opens us
      → Balanced refs (opens + 1) (decopen ∷ us)

add_one_sub : (n : ℕ) → n + 1 - 1 ≡ n
add_one_sub n = omega arith

-- However a vnode is shared, dropped, opened and closed, if the uses balance, no assertion fails,
-- `VOP_RECLAIM` is called at the last drop and not before, and the vnode that it gets passes the
-- assertions of `vnode_kill`. The counts and the uses together are fewer than 2 ^ 31 - 1.
pub run-reclaims :
    (refs opens : ℕ) (us : List Use)
    → Balanced refs opens us
    → refs + opens + length us + 1 < 2 ^ 31
    → (closed : ℕ) × (run us (record { refcount = refs; opencount = opens })
        ≡ some (record { refcount = 1; opencount = 0 }, true, closed))
      × (vnode_kill (record { refcount = 1; opencount = 0 })
          ≡ some (record { refcount = 0; opencount = 0 }))
unfolding run vnode_incref vnode_decref vnode_incopen vnode_decopen vnode_kill
run-reclaims refs opens us last_drop small = (0, refl, refl)
run-reclaims refs opens us (shares {us = us'} b) small =
    let (c, runs, kills) = run-reclaims (refs + 1) opens us' b (omega arith) in
    (c, rw (lt→ltb (refs + 1) int_limit (omega arith)) runs, kills)
run-reclaims refs opens us (drops {refs = refs'} {us = us'} pos b) small =
    let (c, runs, kills) = run-reclaims refs' opens us' b (omega arith) in
    (
      c,
      rw (lt→ltb 0 (refs' + 1) (omega arith), lt→ltb 1 (refs' + 1) (omega arith), add_one_sub refs')
          runs,
      kills,
    )
run-reclaims refs opens us (opens_more {us = us'} b) small =
    let (c, runs, kills) = run-reclaims refs (opens + 1) us' b (omega arith) in
    (c, rw (lt→ltb (opens + 1) int_limit (omega arith)) runs, kills)
run-reclaims refs opens us (closes {opens = opens'} {us = us'} b) small =
    let (c, runs, kills) = run-reclaims refs opens' us' b (omega arith) in
    (
      if not (ltb 0 opens') then c + 1 else c,
      rw (lt→ltb 0 (opens' + 1) (omega arith), add_one_sub opens', runs) refl,
      kills,
    )
