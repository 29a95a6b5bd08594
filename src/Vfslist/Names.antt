-- ===== src/Vfslist/Names.antt =====
-- Names of devices of kern/fs/vfs/vfslist.c, and when a device is not asked for.
use harvard_os161_operating.Prelude.{
  ℕ, ◌≡◌, refl, ap, ◌≢◌, inl, inr, true, false, Option, none, some, List, [], ◌∷◌, ◌++◌, arith,
  ==→eq, eq→==, Bool-cases, length, length-append,
}
use harvard_os161_operating.Vfslist.{
  Knowndev, FsOps, Name, same_name, visit_device, samestring, visit, vfs_getroot, raw, mkrawname,
  samestring3, names_device, badnames,
}

pub same_name_refl : (a : Name) → same_name a a ≡ true
unfolding same_name
same_name_refl [] = refl
same_name_refl (x ∷ xs) = rw (eq→== x x refl) (same_name_refl xs)

pub eq_of_same_name : (a b : Name) → same_name a b ≡ true → a ≡ b
unfolding same_name
eq_of_same_name [] [] h = refl
eq_of_same_name [] (y ∷ ys) h = cc
eq_of_same_name (x ∷ xs) [] h = cc
eq_of_same_name (x ∷ xs) (y ∷ ys) h =
    cc (==→eq x y (ground arith), eq_of_same_name xs ys (ground arith))

pub same_name_ne : (a b : Name) → a ≢ b → same_name a b ≡ false
same_name_ne a b ne = elim (Bool-cases (same_name a b)) [
  | inl same ↦ absurd (ne (eq_of_same_name a b same))
  | inr differ ↦ differ
]

-- A name of a raw device is longer than that of the device.
pub raw-ne : (a : Name) → same_name a (mkrawname a) ≡ false
unfolding mkrawname
raw-ne a =
    same_name_ne a (a ++ raw) (λ e. absurd (omega (arith, ap length e, length-append {0} a raw)))

-- None of the names by which a device is reached is `n`.
pub record IsClear (ops : FsOps) (n : Name) (kd : Knowndev) : Type 0 where
  pub name : same_name kd.kd_name n ≡ false
  pub rawname : samestring kd.kd_rawname (some n) ≡ false
  pub volume : (fs : ℕ) → kd.kd_fs ≡ some fs → samestring (ops.volname fs) (some n) ≡ false

-- `vfs_getroot` passes such a device over.
visit_fields :
    (ops : FsOps) (n a : Name) (r : Option Name) (d : Option ℕ) (v : ℕ) (f : Option ℕ)
    → same_name a n ≡ false
    → samestring r (some n) ≡ false
    → ((fs : ℕ) → f ≡ some fs → samestring (ops.volname fs) (some n) ≡ false)
    → visit ops n (record { kd_name = a; kd_rawname = r; kd_device = d; kd_vnode = v; kd_fs = f })
      ≡ some none
unfolding visit visit_device samestring
visit_fields ops n a none d v none h1 h2 h3 = rw h1 refl
visit_fields ops n a none d v (some fs) h1 h2 h3 = rw (h1, h3 fs refl) refl
visit_fields ops n a (some r) d v none h1 h2 h3 = rw (h1, h2) refl
visit_fields ops n a (some r) d v (some fs) h1 h2 h3 = rw (h1, h3 fs refl, h2) refl

pub visit-IsClear :
    (ops : FsOps) (n : Name) (kd : Knowndev) → IsClear ops n kd → visit ops n kd ≡ some none
visit-IsClear ops n kd c =
    visit_fields ops n kd.kd_name kd.kd_rawname kd.kd_device kd.kd_vnode kd.kd_fs c.name c.rawname
      c.volume

-- All devices of a table are passed over.
abbrev pub AllClear : FsOps → Name → List Knowndev → Type 0
AllClear ops n [] = Unit {0}
AllClear ops n (kd ∷ kds) = IsClear ops n kd × AllClear ops n kds

pub getroot-AllClear :
    (ops : FsOps) (n : Name) (kds rest : List Knowndev)
    → AllClear ops n kds
    → vfs_getroot ops n (kds ++ rest) ≡ vfs_getroot ops n rest
unfolding vfs_getroot
getroot-AllClear ops n [] rest clear = refl
getroot-AllClear ops n (kd ∷ kds) rest (c, clear) =
    rw (visit-IsClear ops n kd c) (getroot-AllClear ops n kds rest clear)

-- The test of `badnames` for one name, and for all of a table.
names_device-IsClear :
    (ops : FsOps) (n : Name) (n2 n3 : Option Name) (kd : Knowndev)
    → names_device ops (some n) n2 n3 kd ≡ false
    → IsClear ops n kd
unfolding names_device samestring3 samestring
names_device-IsClear ops n n2 n3 kd h = record {
  name = ground arith;
  rawname = ground arith;
  volume = λ fs e. ground arith;
}

pub badnames-AllClear :
    (ops : FsOps) (n : Name) (n2 n3 : Option Name) (kds : List Knowndev)
    → badnames ops (some n) n2 n3 kds ≡ false
    → AllClear ops n kds
unfolding badnames
badnames-AllClear ops n n2 n3 [] h = tt
badnames-AllClear ops n n2 n3 (kd ∷ kds) h = (
  names_device-IsClear ops n n2 n3 kd (ground arith),
  badnames-AllClear ops n n2 n3 kds (ground arith),
)

-- The same for the second name.
names_device-IsClear_raw :
    (ops : FsOps) (n : Name) (n1 n3 : Option Name) (kd : Knowndev)
    → names_device ops n1 (some n) n3 kd ≡ false
    → IsClear ops n kd
unfolding names_device samestring3 samestring
names_device-IsClear_raw ops n n1 n3 kd h = record {
  name = ground arith;
  rawname = ground arith;
  volume = λ fs e. ground arith;
}

pub badnames-AllClear_raw :
    (ops : FsOps) (n : Name) (n1 n3 : Option Name) (kds : List Knowndev)
    → badnames ops n1 (some n) n3 kds ≡ false
    → AllClear ops n kds
unfolding badnames
badnames-AllClear_raw ops n n1 n3 [] h = tt
badnames-AllClear_raw ops n n1 n3 (kd ∷ kds) h = (
  names_device-IsClear_raw ops n n1 n3 kd (ground arith),
  badnames-AllClear_raw ops n n1 n3 kds (ground arith),
)
