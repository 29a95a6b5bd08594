-- ===== src/Vfslist/Tests.antt =====
-- Runs of the device table at concrete inputs.
use harvard_os161_operating.Prelude.{
  success, einval, ebusy, enxio, ℕ, ◌≡◌, refl, ap, true, none, some, List, [], ◌∷◌, arith,
}
use harvard_os161_operating.Vfslist.Names.{IsClear}
use harvard_os161_operating.Vfslist.Lookup.{getroot-adddev, getroot-adddev_other}
use harvard_os161_operating.Vfslist.Mount.{disk, unmount-mount}
use harvard_os161_operating.Vfslist.Calls.{Runs}
use harvard_os161_operating.Vfslist.Runs.{Calls, adds, here, next, Calls-Runs}
use harvard_os161_operating.Vfslist.{
  Knowndev, FsOps, AddSupply, fails, root_of, device, Name, same_name, given, visit_device,
  samestring, visit, vfs_getroot, raw, mkrawname, samestring3, names_device, badnames, add_entry,
  vfs_doadd, vfs_adddev, vfs_mount, vfs_unmount,
}

abbrev no_fs : FsOps
no_fs = record {
  volname = λ fs. none;
  sync = λ fs. success;
  sync_again = λ fs. success;
  unmount = λ fs. success;
}

abbrev plenty : AddSupply
plenty = record { name = true; rawname = true; vnode = some 50; entry = true; table = true }

-- The disk "d" may be mounted, so it is reached as "draw" only.
add_disk :
    (let kds = (vfs_adddev no_fs plenty (b'd' ∷ []) 7 true []).1 in
      vfs_getroot no_fs (b'd' ∷ raw) kds)
    ≡ some (device 50)
unfolding vfs_adddev vfs_doadd add_entry badnames vfs_getroot visit visit_device same_name mkrawname
    samestring
add_disk = refl

-- A console, and the disk "d".
abbrev console : Knowndev
console = record {
  kd_name = b'c' ∷ [];
  kd_rawname = none;
  kd_device = some 3;
  kd_vnode = 40;
  kd_fs = none;
}

console-IsClear : IsClear no_fs (b'd' ∷ []) console
unfolding same_name samestring
console-IsClear = record { name = refl; rawname = refl; volume = λ fs e. cc }

unmount-mount_example :
    (kds : List Knowndev) × (vfs_mount
        (λ dev. (success, some 9))
        (b'd' ∷ [])
        (console ∷ disk (b'd' ∷ []) raw 7 50 none ∷ [])
      ≡ some (success, kds))
    × (vfs_getroot no_fs (b'd' ∷ []) kds ≡ some (root_of 9))
    × (vfs_mount (λ dev. (success, some 9)) (b'd' ∷ []) kds ≡ some (ebusy, kds))
    × (vfs_unmount no_fs (b'd' ∷ []) kds
        ≡ some (success, console ∷ disk (b'd' ∷ []) raw 7 50 none ∷ []))
    × (vfs_getroot no_fs (b'd' ∷ []) (console ∷ disk (b'd' ∷ []) raw 7 50 none ∷ [])
        ≡ some (fails enxio))
    × (vfs_unmount no_fs (b'd' ∷ []) (console ∷ disk (b'd' ∷ []) raw 7 50 none ∷ [])
        ≡ some (einval, console ∷ disk (b'd' ∷ []) raw 7 50 none ∷ []))
unmount-mount_example =
    unmount-mount no_fs (b'd' ∷ []) raw 7 50 9 (console ∷ []) [] (λ dev. (success, some 9))
      (console-IsClear, tt) refl refl refl

abbrev with_disk : List Knowndev
with_disk = console ∷ disk (b'd' ∷ []) (b'd' ∷ raw) 7 50 none ∷ []

adds_disk : vfs_adddev no_fs plenty (b'd' ∷ []) 7 true (console ∷ []) ≡ (success, with_disk)
unfolding vfs_adddev vfs_doadd add_entry badnames names_device samestring3 same_name mkrawname
    samestring
adds_disk = refl

getroot-adddev_example :
    (vnode : ℕ) × (plenty.vnode ≡ some vnode)
    × (vfs_getroot no_fs (b'd' ∷ []) with_disk ≡ some (fails enxio))
    × (vfs_getroot no_fs (mkrawname (b'd' ∷ [])) with_disk ≡ some (device vnode))
getroot-adddev_example =
    getroot-adddev no_fs plenty (b'd' ∷ []) 7 true (console ∷ []) with_disk adds_disk

abbrev first_char : Name → ℕ
first_char [] = 0
first_char (c ∷ cs) = c

getroot-adddev_other_example :
    vfs_getroot no_fs (b'c' ∷ []) with_disk ≡ vfs_getroot no_fs (b'c' ∷ []) (console ∷ [])
unfolding mkrawname
getroot-adddev_other_example =
    getroot-adddev_other no_fs plenty (b'd' ∷ []) (b'c' ∷ []) 7 true (console ∷ []) with_disk
      adds_disk (λ e. omega (arith, ap first_char e)) (λ e. omega (arith, ap first_char e))

one_disk : Calls [] (vfs_adddev no_fs plenty (b'd' ∷ []) 7 true []).1
one_disk = next here (adds [] no_fs plenty (b'd' ∷ []) 7 true)

Calls-Runs_example :
    (given (vfs_getroot no_fs (b'd' ∷ []) (vfs_adddev no_fs plenty (b'd' ∷ []) 7 true []).1) ≡ true)
    × Runs (
        vfs_mount
          (λ dev. (success, some 9))
          (b'd' ∷ [])
          (vfs_adddev no_fs plenty (b'd' ∷ []) 7 true []).1)
    × Runs (vfs_unmount no_fs (b'd' ∷ []) (vfs_adddev no_fs plenty (b'd' ∷ []) 7 true []).1)
Calls-Runs_example =
    Calls-Runs no_fs (λ dev. (success, some 9)) (b'd' ∷ []) one_disk (λ dev h. refl)
