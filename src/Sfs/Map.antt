-- ===== src/Sfs/Map.antt =====
-- What `sfs_bmap` of kern/fs/sfs/sfs_vnode.c promises, and the file's map after each of its writes.
use harvard_os161_operating.Prelude.{
  Status, success, enospc, is_success, ℕ, ◌-◌, ◌^◌, ◌≤◌, ◌<◌, ◌≡◌, refl, sym, ap, ◌∙◌, ◌≢◌, ◌⊎◌,
  inl, inr, Bool, true, false, Option, some, List, [], arith, ℕ_discrete, ◌==◌, if◌then◌else◌,
  lt→ltb, eq→==, ne→==, Bool-cases, length,
}
use harvard_os161_operating.Memory.{Memory}
use harvard_os161_operating.Bitmap.{isset}
use harvard_os161_operating.Bitmap.Mark.{isset_lem}
use harvard_os161_operating.Sfs.{
  Fs, SfsVnode, word, put_word, zeros, bused, Mapped, hand_back, set_direct, set_indirect,
}
use harvard_os161_operating.Sfs.Words.{word-put_word, word-zeros}
use harvard_os161_operating.Sfs.Device.{Sound}
use harvard_os161_operating.Sfs.Space.{HasSpace, in_use}
use harvard_os161_operating.Sfs.Grow.{leak-IsFile, link-IsFile}
use harvard_os161_operating.Sfs.File.{
  IsFile, entry-set, through, block_of, later-IsFile, used_ne_free,
}

-- What `sfs_bmap` of block `n` leaves, whatever the device does.
pub record Extends (fs : Fs) (sv : SfsVnode) (n : ℕ) (doalloc : Bool) (status : Status) (b : ℕ)
    (sv' : SfsVnode) (fs' : Fs) : Type 0 where
  pub valid : IsFile fs' sv'
  -- The map differs at `n` at most, and there only where it had a hole.
  pub others : (j : ℕ) → n ≢ j → block_of fs' sv' j ≡ block_of fs sv j
  pub kept : block_of fs sv n ≢ 0 → block_of fs' sv' n ≡ block_of fs sv n
  -- What is handed back is the block of `n`, which is there if it was asked for.
  pub hands : status ≡ success → block_of fs' sv' n ≡ b
  pub made : status ≡ success → doalloc ≡ true → b ≢ 0
  -- A block put into a hole was free, and holds zeros.
  pub clean :
      status ≡ success → block_of fs sv n ≡ 0 → b ≢ 0 → (in_use fs b ≡ false) × (fs'.disk b ≡ zeros)
  -- Blocks in use stay so, and their contents do, but for the file's own indirect block.
  pub in_use_still : (k : ℕ) → in_use fs k ≡ true → in_use fs' k ≡ true
  pub untouched : (k : ℕ) → in_use fs k ≡ true → k ≢ sv.inode.indirect → fs'.disk k ≡ fs.disk k
  -- A device without errors leaves no error but a full disk.
  pub perfect : fs.results ≡ [] → (status ≡ success) ⊎ (status ≡ enospc)

-- The map reads the disk at the indirect block only.
through-same :
    (disk disk' : ℕ → Memory) (ind i : ℕ)
    → (ind ≢ 0 → disk' ind ≡ disk ind)
    → through disk' ind i ≡ through disk ind i
unfolding through
through-same disk disk' ind i h = elim (ℕ_discrete ind 0) [
  | yes z ↦ rw (eq→== ind 0 z) refl
  | no ne ↦ rw (ne→== ind 0 ne) (ap (λ m. word m i) (h ne))
]

pub block_of-same :
    (fs fs' : Fs) (sv : SfsVnode) (i : ℕ)
    → (sv.inode.indirect ≢ 0 → fs'.disk sv.inode.indirect ≡ fs.disk sv.inode.indirect)
    → block_of fs' sv i ≡ block_of fs sv i
unfolding block_of
block_of-same fs fs' sv i h = rw (through-same fs.disk fs'.disk sv.inode.indirect (i - 15) h) refl

pub block_of-direct :
    (fs fs' : Fs) (sv : SfsVnode) (n b i : ℕ)
    → length sv.inode.direct ≡ 15
    → n < 15
    → (sv.inode.indirect ≢ 0 → fs'.disk sv.inode.indirect ≡ fs.disk sv.inode.indirect)
    → block_of fs' (set_direct sv n b) i ≡ (if n == i then b else block_of fs sv i)
unfolding block_of
block_of-direct fs fs' sv n b i dirs lt h =
    let direct_part = entry-set sv.inode.direct n b i (omega (arith, dirs)) in
    rw (through-same fs.disk fs'.disk sv.inode.indirect (i - 15) h, direct_part) (ground arith)

-- A word of the indirect block was written.
pub block_of-indirect :
    (fs fs' : Fs) (sv : SfsVnode) (n b i : ℕ)
    → sv.inode.indirect ≢ 0
    → 15 ≤ n
    → n < 143
    → b < 2 ^ 32
    → fs'.disk sv.inode.indirect ≡ put_word (fs.disk sv.inode.indirect) (n - 15) b
    → block_of fs' sv i ≡ (if n == i then b else block_of fs sv i)
unfolding block_of through
block_of-indirect fs fs' sv n b i some_ind lo hi small e =
    let w = word-put_word (fs.disk sv.inode.indirect) (n - 15) b (i - 15) small in
    rw (ne→== sv.inode.indirect 0 some_ind, e, w) (ground arith)

-- A new indirect block of zeros stands for the holes that there were.
pub block_of-new :
    (fs fs' : Fs) (sv : SfsVnode) (id i : ℕ)
    → sv.inode.indirect ≡ 0
    → fs'.disk id ≡ zeros
    → block_of fs' (set_indirect sv id) i ≡ block_of fs sv i
unfolding block_of through
block_of-new fs fs' sv id i none_yet e =
    rw (eq→== sv.inode.indirect 0 none_yet, e, word-zeros (i - 15)) (ground arith)

-- "Hand back the block": the panic does not happen to a block of the file.
pub hand_back_lem :
    (b : ℕ) (sv : SfsVnode) (fs : Fs)
    → HasSpace fs
    → (b ≢ 0 → (b < fs.nblocks) × (in_use fs b ≡ true))
    → hand_back b sv fs ≡ some (success, b, sv, fs)
unfolding hand_back bused
hand_back_lem b sv fs space h = elim (ℕ_discrete b 0) [
  | yes z ↦ rw (eq→== b 0 z) refl
  | no ne ↦
      let (lt, u) = h ne in
      let read : isset fs.freemap b ≡ some (in_use fs b) =
        isset_lem space.map b (omega (arith, space.covers)) in
      rw (ne→== b 0 ne, lt→ltb b fs.nblocks lt, read, u) refl
]

-- Nothing but the results of later requests has changed.
pub same-Extends :
    (fs : Fs) (sv : SfsVnode) (n : ℕ) (doalloc : Bool) (status : Status) (b : ℕ)
    (later : List Status)
    → IsFile fs sv
    → Sound later
    → (status ≡ success → block_of fs sv n ≡ b)
    → (status ≡ success → doalloc ≡ true → b ≢ 0)
    → (fs.results ≡ [] → (status ≡ success) ⊎ (status ≡ enospc))
    → Extends fs sv n doalloc status b sv (record fs { results = later })
unfolding block_of
same-Extends fs sv n doalloc status b later v sound hands made perfect = record {
  valid = later-IsFile fs sv sv later v sound refl refl;
  others = λ j ne. refl;
  kept = λ ne. refl;
  hands = hands;
  made = made;
  clean = λ ok hole some_b. absurd (some_b (sym (hands ok) ∙ hole));
  in_use_still = λ k u. u;
  untouched = λ k u ne. refl;
  perfect = perfect;
}

-- What is known of a state after block `b` was taken from the free map.
pub record Takes (fs fs' : Fs) (b : ℕ) : Type 0 where
  pub inside : b < fs.nblocks
  pub was_free : in_use fs b ≡ false
  pub marked : (k : ℕ) → in_use fs' k ≡ (if b == k then true else in_use fs k)
  pub space : HasSpace fs'
  pub same_size : fs'.nblocks ≡ fs.nblocks

pub Takes-still :
    {fs fs' : Fs} {b : ℕ} → Takes fs fs' b → (k : ℕ) → in_use fs k ≡ true → in_use fs' k ≡ true
Takes-still {b = b} t k u =
    t.marked k ∙ elim (Bool-cases (b == k)) [ inl e ↦ rw e refl | inr e ↦ rw e u ]

-- A block was taken, and could not be put into the file: it is lost, and no more.
pub leak-Extends :
    (fs fs' : Fs) (sv : SfsVnode) (n : ℕ) (doalloc : Bool) (status : Status) (b : ℕ)
    → IsFile fs sv
    → Takes fs fs' b
    → ((k : ℕ) → k ≢ b → fs'.disk k ≡ fs.disk k)
    → is_success status ≡ false
    → (fs.results ≡ [] → (status ≡ success) ⊎ (status ≡ enospc))
    → Extends fs sv n doalloc status 0 sv fs'
leak-Extends fs fs' sv n doalloc status b v t elsewhere failed perfect = record {
  valid = leak-IsFile b v t.space t.same_size t.marked same;
  others = λ j ne. same j;
  kept = λ ne. same n;
  hands = λ ok. cc (ok, failed);
  made = λ ok. cc (ok, failed);
  clean = λ ok. cc (ok, failed);
  in_use_still = Takes-still t;
  untouched = λ k u ne. elsewhere k (used_ne_free fs u t.was_free);
  perfect = perfect;
}
  where
    same : (i : ℕ) → block_of fs' sv i ≡ block_of fs sv i
    same i =
        block_of-same fs fs' sv i
          (λ ne. elsewhere sv.inode.indirect (used_ne_free fs (v.indirect_placed ne).1 t.was_free))

-- A block was taken and put into the file.
pub link-Extends :
    (fs fs' : Fs) (sv sv' : SfsVnode) (n : ℕ) (doalloc : Bool) (b : ℕ)
    → IsFile fs sv
    → Takes fs fs' b
    → sv'.inode.indirect ≡ sv.inode.indirect
    → length sv'.inode.direct ≡ 15
    → ((i : ℕ) → block_of fs' sv' i ≡ (if n == i then b else block_of fs sv i))
    → block_of fs sv n ≡ 0
    → fs'.disk b ≡ zeros
    → ((k : ℕ) → k ≢ b → k ≢ sv.inode.indirect → fs'.disk k ≡ fs.disk k)
    → Extends fs sv n doalloc success b sv' fs'
link-Extends fs fs' sv sv' n doalloc b v t ind dirs same hole clear elsewhere = record {
  valid = link-IsFile b n v t.space t.same_size t.marked t.was_free t.inside ind dirs same;
  others = λ j ne. rw (same j, ne→== n j ne) refl;
  kept = λ ne. absurd (ne hole);
  hands = λ ok. rw (same n, eq→== n n refl) refl;
  made = λ ok asked z. used_ne_free fs v.super t.was_free (sym z);
  clean = λ ok h ne. (t.was_free, clear);
  in_use_still = Takes-still t;
  untouched = λ k u ne. elsewhere k (used_ne_free fs u t.was_free) ne;
  perfect = λ e. inl refl;
}

-- How `sfs_bmap`, or a part of it, ends.
pub record Maps (fs : Fs) (sv : SfsVnode) (n : ℕ) (doalloc : Bool) (o : Option Mapped)
    : Type 0 where
  pub status : Status
  pub block : ℕ
  pub file : SfsVnode
  pub after : Fs
  pub runs : o ≡ some (status, block, file, after)
  pub extends : Extends fs sv n doalloc status block file after
