-- ===== src/Vfslist/Lookup.antt =====
-- `vfs_getroot` after `vfs_adddev` and `vfs_addfs` of kern/fs/vfs/vfslist.c.
use harvard_os161_operating.Prelude.{
  success, enxio, ◌>>=◌, ℕ, ◌≡◌, refl, ◌∙◌, ◌≢◌, Bool, true, false, Option, none, some, List, [],
  ◌∷◌, ◌++◌, arith, if◌then◌else◌,
}
use harvard_os161_operating.Vfslist.{
  Knowndev, FsOps, Root, AddSupply, fails, root_of, device, Name, visit_device, samestring, visit,
  vfs_getroot, mkrawname, badnames, add_entry, vfs_doadd, vfs_adddev, vfs_addfs,
}
use harvard_os161_operating.Vfslist.Names.{
  IsClear, same_name_refl, same_name_ne, raw-ne, visit-IsClear, getroot-AllClear, badnames-AllClear,
  badnames-AllClear_raw,
}

-- What a call that adds an entry leaves if it succeeds.
add_entry_added :
    (ops : FsOps) (table : Bool) (kd : Knowndev) (kds kds' : List Knowndev)
    → add_entry ops table kd kds ≡ (success, kds')
    → (kds' ≡ kds ++ (kd ∷ []))
      × (badnames ops (some kd.kd_name) kd.kd_rawname (kd.kd_fs >>= ops.volname) kds ≡ false)
unfolding add_entry
add_entry_added ops table kd kds kds' h = ground arith

-- The entry that `vfs_doadd` makes.
abbrev pub entry_of : Name → Bool → Option ℕ → Option ℕ → ℕ → Knowndev
entry_of dname mountable dev fs vnode = record {
  kd_name = dname;
  kd_rawname = if mountable then some (mkrawname dname) else none;
  kd_device = dev;
  kd_vnode = vnode;
  kd_fs = fs;
}

pub doadd_added :
    (ops : FsOps) (m : AddSupply) (dname : Name) (mountable : Bool) (dev fs : Option ℕ)
    (kds kds' : List Knowndev)
    → vfs_doadd ops m dname mountable dev fs kds ≡ (success, kds')
    → (vnode : ℕ) × (m.vnode ≡ some vnode)
      × (kds' ≡ kds ++ (entry_of dname mountable dev fs vnode ∷ []))
      × (badnames ops
            (some dname)
            (if mountable then some (mkrawname dname) else none)
            (fs >>= ops.volname)
            kds
          ≡ false)
unfolding vfs_doadd
doadd_added ops m dname mountable dev fs kds kds' h = go m.vnode refl
  where
    go :
        (o : Option ℕ)
        → m.vnode ≡ o
        → (vnode : ℕ) × (m.vnode ≡ some vnode)
          × (kds' ≡ kds ++ (entry_of dname mountable dev fs vnode ∷ []))
          × (badnames ops
                (some dname)
                (if mountable then some (mkrawname dname) else none)
                (fs >>= ops.volname)
                kds
              ≡ false)
    go none e = absurd (ground arith)
    go (some vnode) e =
        let (at, clear) =
          add_entry_added ops m.table (entry_of dname mountable dev fs vnode) kds kds'
            (ground arith) in
        (vnode, e, at, clear)

-- What a round of `vfs_getroot` decides, and the rest of the table otherwise.
decide : FsOps → Name → List Knowndev → Option (Option Root) → Option Root
decide ops n kds r = r >>= λ x. elim x [ some root ↦ some root | none ↦ vfs_getroot ops n kds ]

decide_same :
    (ops : FsOps) (n : Name) (kds kds' : List Knowndev) (r : Option (Option Root))
    → vfs_getroot ops n kds ≡ vfs_getroot ops n kds'
    → decide ops n kds r ≡ decide ops n kds' r
unfolding decide
decide_same ops n kds kds' none e = refl
decide_same ops n kds kds' (some none) e = e
decide_same ops n kds kds' (some (some root)) e = refl

-- An entry that is not asked for changes nothing at the end of the table.
getroot-append :
    (ops : FsOps) (n : Name) (kds : List Knowndev) (kd : Knowndev)
    → IsClear ops n kd
    → vfs_getroot ops n (kds ++ (kd ∷ [])) ≡ vfs_getroot ops n kds
unfolding vfs_getroot decide
getroot-append ops n [] kd c = rw (visit-IsClear ops n kd c) refl
getroot-append ops n (d ∷ kds) kd c =
    decide_same ops n (kds ++ (kd ∷ [])) kds (visit ops n d) (getroot-append ops n kds kd c)

-- After `vfs_adddev` of a device on which a file system may be mounted, its name is answered with
-- ENXIO and the name of the raw device with its vnode; of any other device, its name with its vnode.
pub getroot-adddev :
    (ops : FsOps) (m : AddSupply) (n : Name) (dev : ℕ) (mountable : Bool) (kds kds' : List Knowndev)
    → vfs_adddev ops m n dev mountable kds ≡ (success, kds')
    → (vnode : ℕ) × (m.vnode ≡ some vnode)
      × (vfs_getroot ops n kds' ≡ some (if mountable then fails enxio else device vnode))
      × (vfs_getroot ops (mkrawname n) kds'
          ≡ (if mountable then some (device vnode) else vfs_getroot ops (mkrawname n) kds))
unfolding vfs_adddev vfs_getroot visit visit_device samestring
getroot-adddev ops m n dev true kds kds' h =
    let (vnode, made, at, clear) = doadd_added ops m n true (some dev) none kds kds' h in
    (
      vnode,
      made,
      rw at (
          getroot-AllClear ops n kds _ (badnames-AllClear ops n _ _ kds clear)
          ∙ rw (same_name_refl n) refl),
      rw at (
          getroot-AllClear ops (mkrawname n) kds _
            (badnames-AllClear_raw ops (mkrawname n) _ _ kds clear)
          ∙ rw (raw-ne n, same_name_refl (mkrawname n)) refl),
    )
getroot-adddev ops m n dev false kds kds' h =
    let (vnode, made, at, clear) = doadd_added ops m n false (some dev) none kds kds' h in
    (
      vnode,
      made,
      rw at (
          getroot-AllClear ops n kds _ (badnames-AllClear ops n _ _ kds clear)
          ∙ rw (same_name_refl n) refl),
      rw at (
          getroot-append ops (mkrawname n) kds _
            (record { name = raw-ne n; rawname = refl; volume = λ fs e. cc })),
    )

-- After `vfs_addfs` the name is answered with the root of the file system.
pub getroot-addfs :
    (ops : FsOps) (m : AddSupply) (n : Name) (fs : ℕ) (kds kds' : List Knowndev)
    → vfs_addfs ops m n fs kds ≡ (success, kds')
    → vfs_getroot ops n kds' ≡ some (root_of fs)
unfolding vfs_addfs vfs_getroot visit
getroot-addfs ops m n fs kds kds' h =
    let (vnode, made, at, clear) = doadd_added ops m n false none (some fs) kds kds' h in
    rw at (
      getroot-AllClear ops n kds _ (badnames-AllClear ops n _ _ kds clear)
      ∙ rw (same_name_refl n) refl)

-- No name but those of a new device, and of its raw device, is answered otherwise than before.
pub getroot-adddev_other :
    (ops : FsOps) (m : AddSupply) (n other : Name) (dev : ℕ) (mountable : Bool)
    (kds kds' : List Knowndev)
    → vfs_adddev ops m n dev mountable kds ≡ (success, kds')
    → n ≢ other
    → mkrawname n ≢ other
    → vfs_getroot ops other kds' ≡ vfs_getroot ops other kds
unfolding vfs_adddev samestring
getroot-adddev_other ops m n other dev true kds kds' h ne ne' =
    let (vnode, made, at, clear) = doadd_added ops m n true (some dev) none kds kds' h in
    rw at (
      getroot-append ops other kds _ (record {
        name = same_name_ne n other ne;
        rawname = same_name_ne (mkrawname n) other ne';
        volume = λ fs e. cc;
      }))
getroot-adddev_other ops m n other dev false kds kds' h ne ne' =
    let (vnode, made, at, clear) = doadd_added ops m n false (some dev) none kds kds' h in
    rw at (
      getroot-append ops other kds _
        (record { name = same_name_ne n other ne; rawname = refl; volume = λ fs e. cc }))
