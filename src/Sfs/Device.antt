-- ===== src/Sfs/Device.antt =====
-- `sfs_rwblock`, `sfs_rblock` and `sfs_wblock` of kern/fs/sfs/sfs_io.c.
use harvard_os161_operating.Memory.{Memory}
use harvard_os161_operating.Prelude.{
  Status, success, einval, eio, is_success, ℕ, zero, suc, ◌≤◌, ◌≡◌, refl, ap, Bool, true, false,
  some, List, [], ◌∷◌, arith, if◌then◌else◌, length,
}
use harvard_os161_operating.Sfs.{Fs, put_block, d_io, rwblock, rblock, wblock}

abbrev pub is_einval : Status → Bool
is_einval einval = true
is_einval _ = false

-- The device does not find fault with a request.
abbrev pub Sound : List Status → Type 0
Sound [] = Unit {0}
Sound (r ∷ rs) = (is_einval r ≡ false) × Sound rs

-- How a request ends: with a status, and with the results of later ones.
pub record Done (tries : ℕ) (fs : Fs) (results : List Status) : Type 0 where
  pub status : Status
  pub later : List Status
  pub runs :
      rwblock tries (record fs { results = results }) ≡ some (status, record fs { results = later })
  pub sound : Sound later
  pub perfect : results ≡ [] → (status ≡ success) × (later ≡ [])

not_nil : {r : Status} {rs : List Status} {A : Type 0} → r ∷ rs ≡ [] → A
not_nil {r} {rs} e = let l : length (r ∷ rs) ≡ 0 = ap length e in absurd (omega (arith, l))

pub rwblock-Done : (tries : ℕ) (fs : Fs) (rs : List Status) → Sound rs → Done tries fs rs
unfolding rwblock d_io
rwblock-Done zero fs [] s = record {
  status = success;
  later = [];
  runs = refl;
  sound = tt;
  perfect = λ _. (refl, refl);
}
rwblock-Done (suc t) fs [] s = record {
  status = success;
  later = [];
  runs = refl;
  sound = tt;
  perfect = λ _. (refl, refl);
}
rwblock-Done zero fs (einval ∷ rs) (h, s) = cc h
rwblock-Done (suc t) fs (einval ∷ rs) (h, s) = cc h
rwblock-Done (suc t) fs (eio ∷ rs) (h, s) =
    let d = rwblock-Done t fs rs s in
    record { status = d.status; later = d.later; runs = d.runs; sound = d.sound; perfect = not_nil }
rwblock-Done zero fs (r ∷ rs) (h, s) = record {
  status = r;
  later = rs;
  runs = refl;
  sound = s;
  perfect = not_nil;
}
rwblock-Done (suc t) fs (r ∷ rs) (h, s) = record {
  status = r;
  later = rs;
  runs = refl;
  sound = s;
  perfect = not_nil;
}

-- `n` errors in a row, and then the results `rs`.
abbrev pub errors : ℕ → List Status → List Status
errors zero rs = rs
errors (suc n) rs = eio ∷ errors n rs

retried :
    (t n : ℕ) (fs : Fs) (rs : List Status)
    → n ≤ t
    → rwblock t (record fs { results = errors n (success ∷ rs) })
      ≡ some (success, record fs { results = rs })
unfolding rwblock d_io
retried zero zero fs rs h = refl
retried zero (suc n) fs rs h = absurd (omega arith)
retried (suc t) zero fs rs h = refl
retried (suc t) (suc n) fs rs h = retried t n fs rs (omega arith)

gives_up :
    (t : ℕ) (fs : Fs) (rs : List Status)
    → rwblock t (record fs { results = errors (suc t) rs }) ≡ some (eio, record fs { results = rs })
unfolding rwblock d_io
gives_up zero fs rs = refl
gives_up (suc t) fs rs = gives_up t fs rs

-- `sfs_rwblock` hides up to ten EIO in a row from its caller, and returns EIO after eleven.
pub rwblock_retries :
    (n : ℕ) (fs : Fs) (rs : List Status)
    → n ≤ 10
    → (rwblock 10 (record fs { results = errors n (success ∷ rs) })
        ≡ some (success, record fs { results = rs }))
      × (rwblock 10 (record fs { results = errors 11 rs }) ≡ some (eio, record fs { results = rs }))
rwblock_retries n fs rs h = (retried 10 n fs rs h, gives_up 10 fs rs)

-- The file system after a write request that ended with `status`.
abbrev pub after_write : Fs → Memory → ℕ → Status → List Status → Fs
after_write fs content b status later =
    if is_success status
    then record fs { results = later; disk = put_block fs.disk b content }
    else record fs { results = later }

-- How `sfs_wblock` ends.
pub record Wrote (fs : Fs) (content : Memory) (b : ℕ) : Type 0 where
  pub status : Status
  pub later : List Status
  pub runs : wblock fs content b ≡ some (status, after_write fs content b status later)
  pub sound : Sound later
  pub perfect : fs.results ≡ [] → (status ≡ success) × (later ≡ [])

pub wblock-Wrote : (fs : Fs) (content : Memory) (b : ℕ) → Sound fs.results → Wrote fs content b
unfolding wblock
wblock-Wrote fs content b s =
    let d = rwblock-Done 10 fs fs.results s in
    record {
      status = d.status;
      later = d.later;
      runs = rw (d.runs) refl;
      sound = d.sound;
      perfect = d.perfect;
    }

-- How `sfs_rblock` ends.
pub record Read (fs : Fs) (b : ℕ) : Type 0 where
  pub status : Status
  pub later : List Status
  pub runs : rblock fs b ≡ some (status, fs.disk b, record fs { results = later })
  pub sound : Sound later
  pub perfect : fs.results ≡ [] → (status ≡ success) × (later ≡ [])

pub rblock-Read : (fs : Fs) (b : ℕ) → Sound fs.results → Read fs b
unfolding rblock
rblock-Read fs b s =
    let d = rwblock-Done 10 fs fs.results s in
    record {
      status = d.status;
      later = d.later;
      runs = rw (d.runs) refl;
      sound = d.sound;
      perfect = d.perfect;
    }

pub is_success-eq : (r : Status) → is_success r ≡ true → r ≡ success
is_success-eq success h = refl
is_success-eq _ h = cc h
