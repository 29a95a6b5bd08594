-- ===== src/Vfslist/Runs.antt =====
-- No sequence of calls on the table of kern/fs/vfs/vfslist.c fails an assertion.
use mathlib.Core.Path.{subst}
use mathlib.Core.Option.{some-injective}
use harvard_os161_operating.Prelude.{
  Status, enomem, ◌>>=◌, is_success, ℕ, ◌≡◌, refl, sym, ap, ◌∙◌, inl, inr, Bool, true, false, ◌&&◌,
  ◌||◌, not, Option, none, some, List, [], ◌∷◌, arith, if◌then◌else◌, Bool-cases,
}
use harvard_os161_operating.Vfslist.{
  Knowndev, FsOps, AddSupply, Name, given, vfs_getroot, mkrawname, badnames, add_entry, vfs_doadd,
  vfs_adddev, vfs_addfs, vfs_mount, vfs_unmount, unmount_device, vfs_unmountall,
}
use harvard_os161_operating.Vfslist.Sound.{is_sound, AllSound, append-AllSound, getroot_runs}
use harvard_os161_operating.Vfslist.Calls.{Mounts, Runs, mount-Runs, unmount-Runs}

-- A call that changes the table, with whatever its surroundings answer.
pub data Call : List Knowndev → List Knowndev → Type 0 where
  adds :
      (kds : List Knowndev) (ops : FsOps) (m : AddSupply) (n : Name) (dev : ℕ) (mountable : Bool)
      → Call kds (vfs_adddev ops m n dev mountable kds).1
  adds_fs :
      (kds : List Knowndev) (ops : FsOps) (m : AddSupply) (n : Name) (fs : ℕ)
      → Call kds (vfs_addfs ops m n fs kds).1
  mounts :
      (kds kds' : List Knowndev) (mountfunc : ℕ → Status × Option ℕ) (n : Name) (s : Status)
      → Mounts mountfunc
      → vfs_mount mountfunc n kds ≡ some (s, kds')
      → Call kds kds'
  unmounts :
      (kds kds' : List Knowndev) (ops : FsOps) (n : Name) (s : Status)
      → vfs_unmount ops n kds ≡ some (s, kds')
      → Call kds kds'
  unmounts_all : (kds : List Knowndev) (ops : FsOps) → Call kds (vfs_unmountall ops kds)

pub data Calls (kds : List Knowndev) : List Knowndev → Type 0 where
  here : Calls kds kds
  next : {kds' kds'' : List Knowndev} → Calls kds kds' → Call kds' kds'' → Calls kds kds''

add_entry-AllSound :
    (ops : FsOps) (table : Bool) (kd : Knowndev) (kds : List Knowndev)
    → AllSound kds
    → is_sound kd ≡ true
    → AllSound (add_entry ops table kd kds).1
unfolding add_entry
add_entry-AllSound ops table kd kds all s =
    elim (Bool-cases
      (badnames ops (some kd.kd_name) kd.kd_rawname (kd.kd_fs >>= ops.volname) kds)) [
        | inl bad ↦ rw bad all
        | inr good ↦ elim (Bool-cases table) [
          | inl room ↦ rw (good, room) (append-AllSound kds kd all s)
          | inr full ↦ rw (good, full) all
        ]
      ]

doadd-AllSound :
    (ops : FsOps) (m : AddSupply) (n : Name) (mountable : Bool) (dev fs : Option ℕ)
    (kds : List Knowndev)
    → AllSound kds
    → (given dev || (not mountable && given fs)) ≡ true
    → AllSound (vfs_doadd ops m n mountable dev fs kds).1
unfolding vfs_doadd is_sound
doadd-AllSound ops m n mountable dev fs kds all s = elim (Bool-cases m.name) [
  | inr no_name ↦ rw no_name all
  | inl name ↦ elim (Bool-cases (mountable && not m.rawname)) [
    | inl no_raw ↦ rw (name, no_raw) all
    | inr raws ↦ rw (name, raws) (go m.vnode)
  ]
]
  where
    sound_entry :
        (vnode : ℕ) (b : Bool)
        → (given dev || (not b && given fs)) ≡ true
        → is_sound (record {
          kd_name = n;
          kd_rawname = if b then some (mkrawname n) else none;
          kd_device = dev;
          kd_vnode = vnode;
          kd_fs = fs;
        })
          ≡ true
    sound_entry vnode true e = e
    sound_entry vnode false e = e

    go :
        (o : Option ℕ)
        → AllSound
            (elim o as (λ x. Status × List Knowndev) [
              | none ↦ (enomem, kds)
              | some vnode ↦
                  if not m.entry
                  then (enomem, kds)
                  else add_entry ops m.table
                      (record {
                        kd_name = n;
                        kd_rawname = if mountable then some (mkrawname n) else none;
                        kd_device = dev;
                        kd_vnode = vnode;
                        kd_fs = fs;
                      })
                      kds
            ]).1
    go none = all
    go (some vnode) = elim (Bool-cases m.entry) [
      | inr no_entry ↦ rw no_entry all
      | inl entry ↦
          rw entry (add_entry-AllSound ops m.table _ kds all (sound_entry vnode mountable s))
    ]

unmount_sound :
    (ops : FsOps) (a : Name) (r : Option Name) (d : Option ℕ) (v : ℕ) (f : Option ℕ)
    → is_sound (record { kd_name = a; kd_rawname = r; kd_device = d; kd_vnode = v; kd_fs = f })
      ≡ true
    → is_sound (
        unmount_device ops
          (record { kd_name = a; kd_rawname = r; kd_device = d; kd_vnode = v; kd_fs = f }))
      ≡ true
unfolding unmount_device is_sound
unmount_sound ops a none d v f s = s
unmount_sound ops a (some r) d v none s = s
unmount_sound ops a (some r) none v (some fs) s = cc
unmount_sound ops a (some r) (some d) v (some fs) s = ground arith

unmountall-AllSound :
    (ops : FsOps) (kds : List Knowndev) → AllSound kds → AllSound (vfs_unmountall ops kds)
unfolding vfs_unmountall
unmountall-AllSound ops [] all = tt
unmountall-AllSound ops (kd ∷ kds) (first, all) = (
  unmount_sound ops kd.kd_name kd.kd_rawname kd.kd_device kd.kd_vnode kd.kd_fs first,
  unmountall-AllSound ops kds all,
)

-- The table of a run that is known.
same_table :
    {r : Option (Status × List Knowndev)} {s : Status} {kds : List Knowndev}
    → Runs r
    → r ≡ some (s, kds)
    → AllSound kds
same_table (s', kds', runs, all) e =
    subst AllSound (ap (λ (x : Status × List Knowndev). x.1) (some-injective _ _ (sym runs ∙ e)))
      all

Call-AllSound : {kds kds' : List Knowndev} → Call kds kds' → AllSound kds → AllSound kds'
unfolding vfs_adddev vfs_addfs
Call-AllSound (adds kds ops m n dev mountable) all =
    doadd-AllSound ops m n mountable (some dev) none kds all refl
Call-AllSound (adds_fs kds ops m n fs) all =
    doadd-AllSound ops m n false none (some fs) kds all refl
Call-AllSound (mounts kds kds' mountfunc n s good e) all =
    same_table (mount-Runs mountfunc n kds good all) e
Call-AllSound (unmounts kds kds' ops n s e) all = same_table (unmount-Runs ops n kds all) e
Call-AllSound (unmounts_all kds ops) all = unmountall-AllSound ops kds all

Calls-AllSound : {kds kds' : List Knowndev} → Calls kds kds' → AllSound kds → AllSound kds'
Calls-AllSound here all = all
Calls-AllSound (next calls call) all = Call-AllSound call (Calls-AllSound calls all)

-- However devices and file systems are added, mounted and unmounted from the empty table on, with
-- memory or without, vfs_getroot, vfs_mount and vfs_unmount of any name fail no assertion, where a
-- mount function that succeeds returns a file system.
pub Calls-Runs :
    {kds : List Knowndev} (ops : FsOps) (mountfunc : ℕ → Status × Option ℕ) (n : Name)
    → Calls [] kds
    → ((dev : ℕ) → is_success (mountfunc dev).0 ≡ true → given (mountfunc dev).1 ≡ true)
    → (given (vfs_getroot ops n kds) ≡ true)
      × Runs (vfs_mount mountfunc n kds)
      × Runs (vfs_unmount ops n kds)
Calls-Runs {kds} ops mountfunc n calls good =
    let all = Calls-AllSound calls tt in
    (getroot_runs ops n kds all, mount-Runs mountfunc n kds good all, unmount-Runs ops n kds all)
