-- ===== src/Vfslist/Calls.antt =====
-- `vfs_mount` and `vfs_unmount` of kern/fs/vfs/vfslist.c on a sound table.
use harvard_os161_operating.Prelude.{
  Status, success, einval, ebusy, enodev, ◌>>=◌, is_success, ℕ, ◌≡◌, refl, inl, inr, true, Option,
  none, some, List, Bool-cases, set,
}
use harvard_os161_operating.Vfslist.{
  Knowndev, FsOps, Name, given, findmount, mount_entry, vfs_mount, unmount_entry, vfs_unmount,
}
use harvard_os161_operating.Vfslist.Sound.{is_sound, AllSound, set-AllSound, findmount_sound}

-- What a mount function returns: with success a file system.
abbrev pub Mounts : (ℕ → Status × Option ℕ) → Type 0
Mounts mountfunc = (dev : ℕ) → is_success (mountfunc dev).0 ≡ true → given (mountfunc dev).1 ≡ true

-- A run goes on, and leaves a sound table.
abbrev pub Runs : Option (Status × List Knowndev) → Type 0
Runs r = (s : Status) × (kds : List Knowndev) × (r ≡ some (s, kds)) × AllSound kds

mount_entry-Runs :
    (mountfunc : ℕ → Status × Option ℕ) (i : ℕ) (a : Name) (r : Option Name) (d : Option ℕ) (v : ℕ)
    (f : Option ℕ) (kds : List Knowndev)
    → Mounts mountfunc
    → AllSound kds
    → is_sound (record { kd_name = a; kd_rawname = r; kd_device = d; kd_vnode = v; kd_fs = f })
      ≡ true
    → given r ≡ true
    → Runs (
        mount_entry mountfunc i
          (record { kd_name = a; kd_rawname = r; kd_device = d; kd_vnode = v; kd_fs = f })
          kds)
unfolding mount_entry is_sound
mount_entry-Runs mountfunc i a none d v f kds good all s g = cc
mount_entry-Runs mountfunc i a (some r) d v (some fs) kds good all s g = (ebusy, kds, refl, all)
mount_entry-Runs mountfunc i a (some r) none v none kds good all s g = cc
mount_entry-Runs mountfunc i a (some r) (some d) v none kds good all s g =
    elim (Bool-cases (is_success (mountfunc d).0)) [
      | inr failed ↦ ((mountfunc d).0, kds, rw failed refl, all)
      | inl mounted ↦ rw mounted (mounts (mountfunc d).1 (good d mounted))
    ]
  where
    mounts :
        (o : Option ℕ)
        → given o ≡ true
        → Runs (
            o >>= λ fs. some (
              success,
              set kds i (record {
                kd_name = a;
                kd_rawname = some r;
                kd_device = some d;
                kd_vnode = v;
                kd_fs = some fs;
              }),
            ))
    mounts none h = cc
    mounts (some fs) h = (success, set kds i _, refl, set-AllSound kds i _ all refl)

unmount_entry-Runs :
    (ops : FsOps) (i : ℕ) (a : Name) (r : Option Name) (d : Option ℕ) (v : ℕ) (f : Option ℕ)
    (kds : List Knowndev)
    → AllSound kds
    → is_sound (record { kd_name = a; kd_rawname = r; kd_device = d; kd_vnode = v; kd_fs = f })
      ≡ true
    → given r ≡ true
    → Runs (
        unmount_entry ops i
          (record { kd_name = a; kd_rawname = r; kd_device = d; kd_vnode = v; kd_fs = f })
          kds)
unfolding unmount_entry is_sound
unmount_entry-Runs ops i a none d v f kds all s g = cc
unmount_entry-Runs ops i a (some r) d v none kds all s g = (einval, kds, refl, all)
unmount_entry-Runs ops i a (some r) none v (some fs) kds all s g = cc
unmount_entry-Runs ops i a (some r) (some d) v (some fs) kds all s g =
    let kd' : Knowndev = record {
      kd_name = a;
      kd_rawname = some r;
      kd_device = some d;
      kd_vnode = v;
      kd_fs = none;
    } in
    elim (Bool-cases (is_success (ops.sync fs))) [
      | inr failed ↦ (ops.sync fs, kds, rw failed refl, all)
      | inl synced ↦ elim (Bool-cases (is_success (ops.unmount fs))) [
        | inr failed ↦ (ops.unmount fs, kds, rw (synced, failed) refl, all)
        | inl left ↦
            (success, set kds i kd', rw (synced, left) refl, set-AllSound kds i kd' all refl)
      ]
    ]

pub mount-Runs :
    (mountfunc : ℕ → Status × Option ℕ) (n : Name) (kds : List Knowndev)
    → Mounts mountfunc
    → AllSound kds
    → Runs (vfs_mount mountfunc n kds)
unfolding vfs_mount
mount-Runs mountfunc n kds good all = go (findmount n kds 0) refl
  where
    go :
        (o : Option (ℕ × Knowndev))
        → findmount n kds 0 ≡ o
        → Runs
            (elim o [ none ↦ some (enodev, kds) | some (i, kd) ↦ mount_entry mountfunc i kd kds ])
    go none e = (enodev, kds, refl, all)
    go (some (i, kd)) e =
        let (s, g) = findmount_sound n kds 0 all e in
        mount_entry-Runs mountfunc i kd.kd_name kd.kd_rawname kd.kd_device kd.kd_vnode kd.kd_fs kds
          good all s g

pub unmount-Runs :
    (ops : FsOps) (n : Name) (kds : List Knowndev) → AllSound kds → Runs (vfs_unmount ops n kds)
unfolding vfs_unmount
unmount-Runs ops n kds all = go (findmount n kds 0) refl
  where
    go :
        (o : Option (ℕ × Knowndev))
        → findmount n kds 0 ≡ o
        → Runs (elim o [ none ↦ some (enodev, kds) | some (i, kd) ↦ unmount_entry ops i kd kds ])
    go none e = (enodev, kds, refl, all)
    go (some (i, kd)) e =
        let (s, g) = findmount_sound n kds 0 all e in
        unmount_entry-Runs ops i kd.kd_name kd.kd_rawname kd.kd_device kd.kd_vnode kd.kd_fs kds all
          s g
