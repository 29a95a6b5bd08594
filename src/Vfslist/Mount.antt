-- ===== src/Vfslist/Mount.antt =====
-- `vfs_mount` and `vfs_unmount` of kern/fs/vfs/vfslist.c.
use harvard_os161_operating.Prelude.{
  Status, success, einval, ebusy, enodev, enxio, ℕ, zero, suc, ◌+◌, ◌≡◌, refl, sym, ap, ◌∙◌, Bool,
  true, false, ◌&&◌, Option, none, some, List, [], ◌∷◌, ◌++◌, arith, if◌then◌else◌, length, set,
}
use harvard_os161_operating.Vfslist.{
  Knowndev, FsOps, fails, root_of, Name, same_name, given, visit, vfs_getroot, findmount,
  mount_entry, vfs_mount, unmount_entry, vfs_unmount,
}
use harvard_os161_operating.Vfslist.Names.{same_name_refl, same_name_ne, AllClear, getroot-AllClear}

same_name_sym : (a b : Name) → same_name a b ≡ false → same_name b a ≡ false
same_name_sym a b h =
    same_name_ne b a (λ e. cc (ap (λ x. same_name x b) (sym e), h, same_name_refl b))

-- The entry is found behind devices that are not asked for.
findmount-AllClear :
    (ops : FsOps) (n : Name) (before after : List Knowndev) (kd : Knowndev) (i : ℕ)
    → AllClear ops n before
    → given kd.kd_rawname ≡ true
    → kd.kd_name ≡ n
    → findmount n (before ++ (kd ∷ after)) i ≡ some (i + length before, kd)
unfolding findmount
findmount-AllClear ops n [] after kd i clear mountable named =
    let same : same_name n kd.kd_name ≡ true = ap (same_name n) named ∙ same_name_refl n in
    rw (mountable, same) (ap (λ m. some (m, kd)) (omega arith))
findmount-AllClear ops n (d ∷ before) after kd i (c, clear) mountable named =
    rw (same_name_sym d.kd_name n c.name) (
      passed (given d.kd_rawname) (
        findmount-AllClear ops n before after kd (i + 1) clear mountable named
        ∙ ap (λ m. some (m, kd)) (omega arith)))
  where
    passed :
        (b : Bool) {r : Option (ℕ × Knowndev)} {u : ℕ × Knowndev}
        → r ≡ some u
        → (if b && false then some (i, d) else r) ≡ some u
    passed true e = e
    passed false e = e

set-middle :
    (before after : List Knowndev) (kd kd' : Knowndev) (i : ℕ)
    → i ≡ length before
    → set (before ++ (kd ∷ after)) i kd' ≡ before ++ (kd' ∷ after)
set-middle [] after kd kd' zero e = refl
set-middle [] after kd kd' (suc i) e = absurd (omega arith)
set-middle (d ∷ before) after kd kd' zero e = absurd (omega arith)
set-middle (d ∷ before) after kd kd' (suc i) e =
    ap (λ l. d ∷ l) (set-middle before after kd kd' i (omega arith))

-- A device on which a file system may be mounted, with the one that is.
abbrev pub disk : Name → Name → ℕ → ℕ → Option ℕ → Knowndev
disk n rawname dev vnode fs = record {
  kd_name = n;
  kd_rawname = some rawname;
  kd_device = some dev;
  kd_vnode = vnode;
  kd_fs = fs;
}

at_found :
    (mountfunc : ℕ → Status × Option ℕ) (n : Name) (kds : List Knowndev) {i : ℕ} {kd : Knowndev}
    → findmount n kds 0 ≡ some (i, kd)
    → vfs_mount mountfunc n kds ≡ mount_entry mountfunc i kd kds
unfolding vfs_mount
at_found mountfunc n kds e =
    ap
      (λ (o : Option (ℕ × Knowndev)). elim o as (λ x. Option (Status × List Knowndev)) [
        | none ↦ some (enodev, kds)
        | some (i, kd) ↦ mount_entry mountfunc i kd kds
      ])
      e

gives_found :
    (ops : FsOps) (n : Name) (kds : List Knowndev) {i : ℕ} {kd : Knowndev}
    → findmount n kds 0 ≡ some (i, kd)
    → vfs_unmount ops n kds ≡ unmount_entry ops i kd kds
unfolding vfs_unmount
gives_found ops n kds e =
    ap
      (λ (o : Option (ℕ × Knowndev)). elim o as (λ x. Option (Status × List Knowndev)) [
        | none ↦ some (enodev, kds)
        | some (i, kd) ↦ unmount_entry ops i kd kds
      ])
      e

-- The table before and after a file system is mounted on the disk.
module _ (ops : FsOps) (n rawname : Name) (dev vnode : ℕ) (before after : List Knowndev)
    (clear : AllClear ops n before) where
  abbrev pub table : Option ℕ → List Knowndev
  table fs = before ++ (disk n rawname dev vnode fs ∷ after)

  found :
      (fs : Option ℕ)
      → findmount n (table fs) 0 ≡ some (0 + length before, disk n rawname dev vnode fs)
  found fs = findmount-AllClear ops n before after (disk n rawname dev vnode fs) 0 clear refl refl

  replaced :
      (fs fs' : Option ℕ)
      → set (table fs) (0 + length before) (disk n rawname dev vnode fs') ≡ table fs'
  replaced fs fs' =
      set-middle before after (disk n rawname dev vnode fs) (disk n rawname dev vnode fs')
        (0 + length before) (omega arith)

  pub mount_runs :
      (mountfunc : ℕ → Status × Option ℕ) (fs : ℕ)
      → mountfunc dev ≡ (success, some fs)
      → vfs_mount mountfunc n (table none) ≡ some (success, table (some fs))
  unfolding vfs_mount mount_entry
  mount_runs mountfunc fs mounts =
      at_found mountfunc n (table none) (found none)
      ∙ rw mounts (ap (λ kds. some (success, kds)) (replaced none (some fs)))

  pub mount_busy :
      (mountfunc : ℕ → Status × Option ℕ) (fs : ℕ)
      → vfs_mount mountfunc n (table (some fs)) ≡ some (ebusy, table (some fs))
  unfolding vfs_mount mount_entry
  mount_busy mountfunc fs = at_found mountfunc n (table (some fs)) (found (some fs))

  pub unmount_runs :
      (fs : ℕ)
      → ops.sync fs ≡ success
      → ops.unmount fs ≡ success
      → vfs_unmount ops n (table (some fs)) ≡ some (success, table none)
  unfolding vfs_unmount unmount_entry
  unmount_runs fs synced left =
      gives_found ops n (table (some fs)) (found (some fs))
      ∙ rw (synced, left) (ap (λ kds. some (success, kds)) (replaced (some fs) none))

  pub unmount_none : vfs_unmount ops n (table none) ≡ some (einval, table none)
  unfolding vfs_unmount unmount_entry
  unmount_none = gives_found ops n (table none) (found none)

  pub getroot-mounted : (fs : ℕ) → vfs_getroot ops n (table (some fs)) ≡ some (root_of fs)
  unfolding vfs_getroot visit
  getroot-mounted fs = getroot-AllClear ops n before _ clear ∙ rw (same_name_refl n) refl

  pub getroot-unmounted : vfs_getroot ops n (table none) ≡ some (fails enxio)
  unfolding vfs_getroot visit
  getroot-unmounted = getroot-AllClear ops n before _ clear ∙ rw (same_name_refl n) refl

-- On a disk behind devices that its name does not ask for, `vfs_mount` with a `mountfunc` that succeeds
-- mounts the file system: the name is answered with its root, a second `vfs_mount` is refused with
-- EBUSY, and `vfs_unmount`, where the file system lets go, gives the table back as it was. There the
-- name is answered with ENXIO, and `vfs_unmount` with EINVAL.
pub unmount-mount :
    (ops : FsOps) (n rawname : Name) (dev vnode fs : ℕ) (before after : List Knowndev)
    (mountfunc : ℕ → Status × Option ℕ)
    → AllClear ops n before
    → mountfunc dev ≡ (success, some fs)
    → ops.sync fs ≡ success
    → ops.unmount fs ≡ success
    → (kds : List Knowndev) × (vfs_mount mountfunc n
          (before ++ (disk n rawname dev vnode none ∷ after))
        ≡ some (success, kds))
      × (vfs_getroot ops n kds ≡ some (root_of fs))
      × (vfs_mount mountfunc n kds ≡ some (ebusy, kds))
      × (vfs_unmount ops n kds ≡ some (success, before ++ (disk n rawname dev vnode none ∷ after)))
      × (vfs_getroot ops n (before ++ (disk n rawname dev vnode none ∷ after)) ≡ some (fails enxio))
      × (vfs_unmount ops n (before ++ (disk n rawname dev vnode none ∷ after))
          ≡ some (einval, before ++ (disk n rawname dev vnode none ∷ after)))
unmount-mount ops n rawname dev vnode fs before after mountfunc clear mounts synced left = (
  before ++ (disk n rawname dev vnode (some fs) ∷ after),
  mount_runs ops n rawname dev vnode before after clear mountfunc fs mounts,
  getroot-mounted ops n rawname dev vnode before after clear fs,
  mount_busy ops n rawname dev vnode before after clear mountfunc fs,
  unmount_runs ops n rawname dev vnode before after clear fs synced left,
  getroot-unmounted ops n rawname dev vnode before after clear,
  unmount_none ops n rawname dev vnode before after clear,
)
