-- ===== src/Vfslist.antt =====
-- ece344/os161/kern/fs/vfs/vfslist.c: the table of named devices.
-- A string is the list of its characters, and NULL is `none`; devices, file systems and vnodes are
-- numbers. `knowndevs` is a list, and `knowndevs_lock` is left out: it is held throughout each call.
-- What the file systems and `mountfunc` return are arguments. Console messages are left out.
pub mod Names
pub mod Lookup
pub mod Mount
pub mod Sound
pub mod Calls
pub mod Runs
mod Tests
use harvard_os161_operating.Prelude.{
  Status, success, enomem, einval, eexist, ebusy, enodev, enxio, ◌>>=◌, ◌>>◌, guard, is_success, ℕ,
  ◌+◌, Bool, true, false, ◌&&◌, ◌||◌, not, Option, none, some, List, [], ◌∷◌, ◌++◌, ◌==◌,
  if◌then◌else◌, set,
}

abbrev pub Name : Type 0
Name = List ℕ

-- `!strcmp(a, b)`
pub same_name : Name → Name → Bool
same_name [] [] = true
same_name (a ∷ as') (b ∷ bs) = (a == b) && same_name as' bs
same_name _ _ = false

-- Whether a pointer is not NULL.
abbrev pub given {ℓ} : {A : Type ℓ} → Option A → Bool
given none = false
given (some a) = true

-- `struct knowndev`
pub record Knowndev : Type 0 where
  pub kd_name : Name
  pub kd_rawname : Option Name
  pub kd_device : Option ℕ
  pub kd_vnode : ℕ
  pub kd_fs : Option ℕ

-- What the file systems do: the volume name; the result of `FSOP_SYNC`, for the first and the second
-- attempt in a call; the result of `FSOP_UNMOUNT`.
pub record FsOps : Type 0 where
  pub volname : ℕ → Option Name
  pub sync : ℕ → Status
  pub sync_again : ℕ → Status
  pub unmount : ℕ → Status

-- What `vfs_getroot` returns: an error, the root of a file system, or a vnode with one reference more.
pub data Root : Type 0 where
  fails : Status → Root
  root_of : ℕ → Root
  device : ℕ → Root

-- The tests of a round of `vfs_getroot` that follow those for a file system.
pub visit_device : Name → Knowndev → Option (Option Root)
visit_device devname kd =
    if same_name kd.kd_name devname
    then guard (not (given kd.kd_fs))
      >> (guard (not (given kd.kd_rawname))
          >> (guard (given kd.kd_device) >> some (some (device kd.kd_vnode))))
    else elim kd.kd_rawname [
      | none ↦ some none
      | some rawname ↦
          if same_name rawname devname
          then guard (given kd.kd_device) >> some (some (device kd.kd_vnode))
          else some none
    ]

-- `samestring`
pub samestring : Option Name → Option Name → Bool
samestring (some a) (some b) = same_name a b
samestring _ _ = false

-- A round of `vfs_getroot`; the inner `none` goes on to the next device.
pub visit : FsOps → Name → Knowndev → Option (Option Root)
visit ops devname kd = elim kd.kd_fs [
  | some fs ↦
      if same_name kd.kd_name devname || samestring (ops.volname fs) (some devname)
      then some (some (root_of fs))
      else visit_device devname kd
  | none ↦
      if given kd.kd_rawname && same_name kd.kd_name devname
      then some (some (fails enxio))
      else visit_device devname kd
]

pub vfs_getroot : FsOps → Name → List Knowndev → Option Root
vfs_getroot ops devname [] = some (fails enodev)
vfs_getroot ops devname (kd ∷ kds) = visit ops devname kd >>= λ r. elim r [
  | some root ↦ some root
  | none ↦ vfs_getroot ops devname kds
]

-- Whether a pointer to a file system is the one given.
abbrev pub is_fs : ℕ → Option ℕ → Bool
is_fs fs none = false
is_fs fs (some other) = other == fs

pub vfs_getdevname : ℕ → List Knowndev → Option Name
vfs_getdevname fs [] = none
vfs_getdevname fs (kd ∷ kds) = if is_fs fs kd.kd_fs then some kd.kd_name else vfs_getdevname fs kds

-- The file systems on which `vfs_sync` calls `FSOP_SYNC`, in order.
pub vfs_sync : List Knowndev → List ℕ
vfs_sync [] = []
vfs_sync (kd ∷ kds) = elim kd.kd_fs [ none ↦ vfs_sync kds | some fs ↦ fs ∷ vfs_sync kds ]

-- `"raw"`
abbrev pub raw : Name
raw = b'r' ∷ b'a' ∷ b'w' ∷ []

-- `mkrawname`, where there is memory.
pub mkrawname : Name → Name
mkrawname name = name ++ raw

pub samestring3 : Option Name → Option Name → Option Name → Option Name → Bool
samestring3 a b c d = samestring a b || (samestring a c || samestring a d)

-- A round of `badnames`.
pub names_device : FsOps → Option Name → Option Name → Option Name → Knowndev → Bool
names_device ops n1 n2 n3 kd =
    (elim kd.kd_fs [ none ↦ false | some fs ↦ samestring3 (ops.volname fs) n1 n2 n3 ])
    || (samestring3 kd.kd_rawname n1 n2 n3 || samestring3 (some kd.kd_name) n1 n2 n3)

pub badnames : FsOps → Option Name → Option Name → Option Name → List Knowndev → Bool
badnames ops n1 n2 n3 [] = false
badnames ops n1 n2 n3 (kd ∷ kds) = names_device ops n1 n2 n3 kd || badnames ops n1 n2 n3 kds

-- What `vfs_doadd` depends on: whether there is memory for the names, for the entry and, in
-- `array_add`, for the table; and the vnode that `dev_create_vnode` returns.
pub record AddSupply : Type 0 where
  pub name : Bool
  pub rawname : Bool
  pub vnode : Option ℕ
  pub entry : Bool
  pub table : Bool

-- `vfs_doadd` where it holds the lock.
pub add_entry : FsOps → Bool → Knowndev → List Knowndev → Status × List Knowndev
add_entry ops table kd kds =
    let volname = kd.kd_fs >>= ops.volname in
    if not (badnames ops (some kd.kd_name) kd.kd_rawname volname kds)
    then (if table then (success, kds ++ (kd ∷ [])) else (enomem, kds))
    else (eexist, kds)

pub vfs_doadd :
    FsOps → AddSupply → Name → Bool → Option ℕ → Option ℕ → List Knowndev → Status × List Knowndev
vfs_doadd ops m dname mountable dev fs kds =
    if not m.name
    then (enomem, kds)
    else if mountable && not m.rawname
    then (enomem, kds)
    else elim m.vnode [
      | none ↦ (enomem, kds)
      | some vnode ↦
          if not m.entry
          then (enomem, kds)
          else add_entry ops m.table
              (record {
                kd_name = dname;
                kd_rawname = if mountable then some (mkrawname dname) else none;
                kd_device = dev;
                kd_vnode = vnode;
                kd_fs = fs;
              })
              kds
    ]

pub vfs_adddev : FsOps → AddSupply → Name → ℕ → Bool → List Knowndev → Status × List Knowndev
vfs_adddev ops m devname dev mountable kds = vfs_doadd ops m devname mountable (some dev) none kds

pub vfs_addfs : FsOps → AddSupply → Name → ℕ → List Knowndev → Status × List Knowndev
vfs_addfs ops m devname fs kds = vfs_doadd ops m devname false none (some fs) kds

-- `findmount`: the entry and its index, counted from `i`; `none` is ENODEV.
pub findmount : Name → List Knowndev → ℕ → Option (ℕ × Knowndev)
findmount devname [] i = none
findmount devname (kd ∷ kds) i =
    if given kd.kd_rawname && same_name devname kd.kd_name
    then some (i, kd)
    else findmount devname kds (i + 1)

-- `vfs_mount` on the entry `kd`, with what `mountfunc` returns for its device.
pub mount_entry :
    (ℕ → Status × Option ℕ) → ℕ → Knowndev → List Knowndev → Option (Status × List Knowndev)
mount_entry mountfunc i kd kds =
    if given kd.kd_fs
    then some (ebusy, kds)
    else (guard (given kd.kd_rawname)
        >> (kd.kd_device >>= λ dev.
            if is_success (mountfunc dev).0
            then ((mountfunc dev).1 >>= λ fs.
                some (success, set kds i (record kd { kd_fs = some fs })))
            else some ((mountfunc dev).0, kds)))

pub vfs_mount : (ℕ → Status × Option ℕ) → Name → List Knowndev → Option (Status × List Knowndev)
vfs_mount mountfunc devname kds = elim (findmount devname kds 0) [
  | none ↦ some (enodev, kds)
  | some (i, kd) ↦ mount_entry mountfunc i kd kds
]

-- `vfs_unmount` on the entry `kd`.
pub unmount_entry : FsOps → ℕ → Knowndev → List Knowndev → Option (Status × List Knowndev)
unmount_entry ops i kd kds = elim kd.kd_fs [
  | none ↦ some (einval, kds)
  | some fs ↦
      guard (given kd.kd_rawname)
      >> (guard (given kd.kd_device)
          >> (if not (is_success (ops.sync fs))
              then some (ops.sync fs, kds)
              else if not (is_success (ops.unmount fs))
              then some (ops.unmount fs, kds)
              else some (success, set kds i (record kd { kd_fs = none }))))
]

pub vfs_unmount : FsOps → Name → List Knowndev → Option (Status × List Knowndev)
vfs_unmount ops devname kds = elim (findmount devname kds 0) [
  | none ↦ some (enodev, kds)
  | some (i, kd) ↦ unmount_entry ops i kd kds
]

-- A round of `vfs_unmountall`.
pub unmount_device : FsOps → Knowndev → Knowndev
unmount_device ops kd = if not (given kd.kd_rawname) then kd else elim kd.kd_fs [
  | none ↦ kd
  | some fs ↦
      if not (is_success (ops.sync fs)) && not (is_success (ops.sync_again fs))
      then kd
      else if not (is_success (ops.unmount fs))
      then kd
      else record kd { kd_fs = none }
]

pub vfs_unmountall : FsOps → List Knowndev → List Knowndev
vfs_unmountall ops [] = []
vfs_unmountall ops (kd ∷ kds) = unmount_device ops kd ∷ vfs_unmountall ops kds
