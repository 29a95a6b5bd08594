-- ===== src/Vfslist/Sound.antt =====
-- The table of kern/fs/vfs/vfslist.c over many calls.
use mathlib.Core.Path.{subst}
use harvard_os161_operating.Prelude.{
  ◌>>=◌, ℕ, zero, suc, ◌+◌, ◌≡◌, refl, inl, inr, Bool, true, ◌&&◌, ◌||◌, not, Option, none, some,
  List, [], ◌∷◌, ◌++◌, arith, Bool-cases, set,
}
use harvard_os161_operating.Vfslist.{
  Knowndev, FsOps, Root, Name, same_name, given, visit_device, visit, vfs_getroot, findmount,
}

-- An entry has a device, or it is a file system that cannot be unmounted.
unfoldable pub is_sound : Knowndev → Bool
is_sound kd = given kd.kd_device || (not (given kd.kd_rawname) && given kd.kd_fs)

abbrev pub AllSound : List Knowndev → Type 0
AllSound [] = Unit {0}
AllSound (kd ∷ kds) = (is_sound kd ≡ true) × AllSound kds

pub append-AllSound :
    (kds : List Knowndev) (kd : Knowndev)
    → AllSound kds
    → is_sound kd ≡ true
    → AllSound (kds ++ (kd ∷ []))
append-AllSound [] kd all s = (s, tt)
append-AllSound (d ∷ kds) kd (first, all) s = (first, append-AllSound kds kd all s)

pub set-AllSound :
    (kds : List Knowndev) (i : ℕ) (kd : Knowndev)
    → AllSound kds
    → is_sound kd ≡ true
    → AllSound (set kds i kd)
set-AllSound [] i kd all s = tt
set-AllSound (d ∷ kds) zero kd (first, all) s = (s, all)
set-AllSound (d ∷ kds) (suc i) kd (first, all) s = (first, set-AllSound kds i kd all s)

-- What `findmount` finds is an entry that may be mounted, and is sound.
pub findmount_sound :
    (n : Name) (kds : List Knowndev) (i : ℕ) {j : ℕ} {kd : Knowndev}
    → AllSound kds
    → findmount n kds i ≡ some (j, kd)
    → (is_sound kd ≡ true) × (given kd.kd_rawname ≡ true)
unfolding findmount
findmount_sound n [] i all e = cc
findmount_sound n (d ∷ kds) i {j} {kd} (first, all) e =
    elim (Bool-cases (given d.kd_rawname && same_name n d.kd_name)) [
      | inr other ↦ findmount_sound n kds (i + 1) all (rw other at e)
      | inl this ↦ hit this (rw this at e)
    ]
  where
    hit :
        (given d.kd_rawname && same_name n d.kd_name) ≡ true
        → ◌≡◌ {A = Option (ℕ × Knowndev)} (some (i, d)) (some (j, kd))
        → (is_sound kd ≡ true) × (given kd.kd_rawname ≡ true)
    hit this same =
        let eq : d ≡ kd = cc same in
        (
          subst (λ x. is_sound x ≡ true) eq first,
          subst (λ x. given x.kd_rawname ≡ true) eq (ground arith),
        )

-- A round of `vfs_getroot` at such an entry fails no assertion.
visit_runs :
    (ops : FsOps) (n a : Name) (r : Option Name) (d : Option ℕ) (v : ℕ) (f : Option ℕ)
    → is_sound (record { kd_name = a; kd_rawname = r; kd_device = d; kd_vnode = v; kd_fs = f })
      ≡ true
    → given (
        visit ops n
          (record { kd_name = a; kd_rawname = r; kd_device = d; kd_vnode = v; kd_fs = f }))
      ≡ true
unfolding is_sound visit visit_device
visit_runs ops n a none (some d) v none s = ground arith
visit_runs ops n a none none v none s = cc
visit_runs ops n a none d v (some fs) s = ground arith
visit_runs ops n a (some r) none v f s = cc
visit_runs ops n a (some r) (some d) v none s = ground arith
visit_runs ops n a (some r) (some d) v (some fs) s = ground arith

pub getroot_runs :
    (ops : FsOps) (n : Name) (kds : List Knowndev)
    → AllSound kds
    → given (vfs_getroot ops n kds) ≡ true
unfolding vfs_getroot
getroot_runs ops n [] all = refl
getroot_runs ops n (kd ∷ kds) (first, all) =
    go (visit ops n kd)
      (visit_runs ops n kd.kd_name kd.kd_rawname kd.kd_device kd.kd_vnode kd.kd_fs first)
      (getroot_runs ops n kds all)
  where
    go :
        (r : Option (Option Root))
        → given r ≡ true
        → given (vfs_getroot ops n kds) ≡ true
        → given (r >>= λ x. elim x [ some root ↦ some root | none ↦ vfs_getroot ops n kds ]) ≡ true
    go none h rest = cc
    go (some none) h rest = rest
    go (some (some root)) h rest = refl
