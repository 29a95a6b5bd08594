-- ===== src/Sfs/Space.antt =====
-- `sfs_balloc`, `sfs_bfree` and `sfs_bused` of kern/fs/sfs/sfs_vnode.c.
use harvard_os161_operating.Prelude.{
  Status, success, enospc, ◌>>=◌, ◌>>◌, guard, is_success, ℕ, ◌≤◌, ◌<◌, ◌≡◌, refl, ◌≢◌, inl, inr,
  Bool, true, false, Option, some, List, [], arith, dec_lt, ltb, ◌==◌, if◌then◌else◌, lt→ltb, eq→==,
  ne→==, Bool-cases,
}
use harvard_os161_operating.Memory.{Memory}
use harvard_os161_operating.Bitmap.{Bitmap, Alloc, allocated, no_space, alloc}
use harvard_os161_operating.Bitmap.Valid.{IsValid, is_used}
use harvard_os161_operating.Bitmap.FirstFree.{Took, Outcome, takes, refuses, alloc-Outcome}
use harvard_os161_operating.Sfs.{Fs, put_block, zeros, wblock, balloc}
use harvard_os161_operating.Sfs.Device.{Sound, after_write, wblock-Wrote}

-- The free map is well-formed, covers the disk, and has nothing to give behind the end of the disk.
pub record HasSpace (fs : Fs) : Type 0 where
  pub map : IsValid fs.freemap
  pub covers : fs.nblocks ≤ fs.freemap.nbits
  pub beyond : (i : ℕ) → fs.nblocks ≤ i → i < fs.freemap.nbits → is_used fs.freemap.v i ≡ true
  pub sound : Sound fs.results

abbrev pub in_use : Fs → ℕ → Bool
in_use fs b = is_used fs.freemap.v b

-- What `sfs_balloc` did to take block `b`.
pub record Fresh (fs : Fs) (status : Status) (b : ℕ) (fs' : Fs) : Type 0 where
  pub inside : b < fs.nblocks
  pub was_free : in_use fs b ≡ false
  pub marked : (k : ℕ) → in_use fs' k ≡ (if b == k then true else in_use fs k)
  pub space : HasSpace fs'
  pub same_size : fs'.nblocks ≡ fs.nblocks
  pub elsewhere : (k : ℕ) → k ≢ b → fs'.disk k ≡ fs.disk k
  pub cleared : status ≡ success → fs'.disk b ≡ zeros
  pub perfect : fs.results ≡ [] → (status ≡ success) × (fs'.results ≡ [])

-- How `sfs_balloc` ends.
pub data Balloc (fs : Fs) : Option (Status × ℕ × Fs) → Type 0 where
  full : ((j : ℕ) → j < fs.nblocks → in_use fs j ≡ true) → Balloc fs (some (enospc, 0, fs))
  fresh :
      {status : Status} {b : ℕ} {fs' : Fs}
      → Fresh fs status b fs'
      → Balloc fs (some (status, b, fs'))

-- Block `b` was marked in the map; the request to clear it ended with `status`.
cleared-Fresh :
    (fs : Fs) (map : Bitmap) (b : ℕ) (status : Status) (later : List Status)
    → HasSpace fs
    → Took fs.freemap b map
    → b < fs.nblocks
    → Sound later
    → (fs.results ≡ [] → (status ≡ success) × (later ≡ []))
    → Fresh fs status b
        (after_write (record fs { freemap = map; freemap_dirty = true }) zeros b status later)
cleared-Fresh fs map b status later space t inside sound perfect =
    elim (Bool-cases (is_success status)) [
      | inl done ↦ rw done (record {
        inside = inside;
        was_free = t.was_free;
        marked = t.marked;
        space = map_space (put_block fs.disk b zeros);
        same_size = refl;
        elsewhere = λ k ne. rw (ne→== k b ne) refl;
        cleared = λ _. rw (eq→== b b refl) refl;
        perfect = perfect;
      })
      | inr failed ↦ rw failed (record {
        inside = inside;
        was_free = t.was_free;
        marked = t.marked;
        space = map_space fs.disk;
        same_size = refl;
        elsewhere = λ k ne. refl;
        cleared = λ e. cc (failed, e);
        perfect = perfect;
      })
    ]
  where
    map_space :
        (disk : ℕ → Memory)
        → HasSpace (record fs { freemap = map; freemap_dirty = true; results = later; disk = disk })
    map_space disk = record {
      map = t.valid;
      covers = omega (arith, space.covers, t.same_bits);
      beyond = λ i lo hi.
          let old : in_use fs i ≡ true = space.beyond i lo (omega (arith, t.same_bits)) in
          ground (arith, t.marked i, old);
      sound = sound;
    }

-- `sfs_balloc` takes a block that was free, inside the disk, and clears it, whatever the device
-- does; it refuses where no block is free. It does not panic.
pub balloc-Balloc : (fs : Fs) → HasSpace fs → Balloc fs (balloc fs)
unfolding balloc
balloc-Balloc fs space = go (alloc fs.freemap) (alloc-Outcome space.map)
  where
    go :
        (o : Option Alloc)
        → Outcome fs.freemap o
        → Balloc fs (
            o >>= λ a. elim a [
              | no_space ↦ some (enospc, 0, fs)
              | allocated b map ↦
                  guard (ltb b fs.nblocks)
                  >> (wblock (record fs { freemap = map; freemap_dirty = true }) zeros b >>= λ x.
                      some (x.0, b, x.1))
            ])
    go _ (refuses all_used) = full (λ j lt. all_used j (omega (arith, space.covers)))
    go _ (takes {i = b} {b' = map} t) = elim (dec_lt b fs.nblocks) [
      | yes inside ↦
          let w =
            wblock-Wrote (record fs { freemap = map; freemap_dirty = true }) zeros b space.sound in
          rw (lt→ltb b fs.nblocks inside, w.runs)
            (fresh (cleared-Fresh fs map b w.status w.later space t inside w.sound w.perfect))
      | no outside ↦
          let used : in_use fs b ≡ true = space.beyond b (omega arith) t.inside in
          absurd (cc (used, t.was_free))
    ]
