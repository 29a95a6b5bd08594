-- ===== src/Sfs/File.antt =====
-- The blocks of a file of kern/fs/sfs/sfs_vnode.c, and the invariant of its block map.
use harvard_os161_operating.Prelude.{
  Status, ℕ, zero, suc, ◌-◌, ◌<◌, ◌≡◌, refl, sym, ap, ◌∙◌, ◌≢◌, true, false, some, List, [], ◌∷◌,
  arith, ltb, ◌==◌, if◌then◌else◌, eq→==, length, get_elem?, set, replicate,
}
use harvard_os161_operating.Memory.{Memory}
use harvard_os161_operating.Sfs.{Fs, SfsVnode, word}
use harvard_os161_operating.Sfs.Device.{Sound}
use harvard_os161_operating.Sfs.Space.{HasSpace, in_use}

-- Entry `i` of `sfi_direct`.
abbrev pub entry : List ℕ → ℕ → ℕ
entry [] i = 0
entry (b ∷ bs) zero = b
entry (b ∷ bs) (suc i) = entry bs i

pub entry-set :
    (bs : List ℕ) (i b j : ℕ)
    → i < length bs
    → entry (set bs i b) j ≡ (if i == j then b else entry bs j)
entry-set [] i b j h = absurd (omega arith)
entry-set (x ∷ bs) zero b zero h = refl
entry-set (x ∷ bs) zero b (suc j) h = ground arith
entry-set (x ∷ bs) (suc i) b zero h = ground arith
entry-set (x ∷ bs) (suc i) b (suc j) h = ground (arith, entry-set bs i b j)

pub get_elem?-entry : (bs : List ℕ) (i : ℕ) → i < length bs → get_elem? bs i ≡ some (entry bs i)
get_elem?-entry [] i h = absurd (omega arith)
get_elem?-entry (x ∷ bs) zero h = refl
get_elem?-entry (x ∷ bs) (suc i) h = get_elem?-entry bs i (omega arith)

-- Word `i` of the indirect block, all zeros if there is none.
unfoldable pub through : (ℕ → Memory) → ℕ → ℕ → ℕ
through disk indirect i = if indirect == 0 then 0 else word (disk indirect) i

-- The disk block of each block of a file, 0 for a hole.
unfoldable pub block_of : Fs → SfsVnode → ℕ → ℕ
block_of fs sv i =
    if ltb i 15
    then entry sv.inode.direct i
    else if ltb i 143
    then through fs.disk sv.inode.indirect (i - 15)
    else 0

-- A file's map: every block lies on the disk and is marked used, no two blocks of the file share
-- one, and the indirect block is none of them. Block 0, the superblock, is marked used.
pub record IsFile (fs : Fs) (sv : SfsVnode) : Type 0 where
  pub space : HasSpace fs
  pub directs : length sv.inode.direct ≡ 15
  pub super : in_use fs 0 ≡ true
  pub placed :
      (i : ℕ)
      → block_of fs sv i ≢ 0
      → (block_of fs sv i < fs.nblocks) × (in_use fs (block_of fs sv i) ≡ true)
  pub distinct : (i j : ℕ) → block_of fs sv i ≢ 0 → block_of fs sv i ≡ block_of fs sv j → i ≡ j
  pub indirect_placed :
      sv.inode.indirect ≢ 0
      → (sv.inode.indirect < fs.nblocks) × (in_use fs sv.inode.indirect ≡ true)
  pub indirect_own : (i : ℕ) → sv.inode.indirect ≢ 0 → block_of fs sv i ≢ sv.inode.indirect

later_block_of :
    (fs : Fs) (sv sv' : SfsVnode) (later : List Status) (i : ℕ)
    → sv'.inode.direct ≡ sv.inode.direct
    → sv'.inode.indirect ≡ sv.inode.indirect
    → block_of (record fs { results = later }) sv' i ≡ block_of fs sv i
unfolding block_of
later_block_of fs sv sv' later i same_direct same_indirect = rw (same_direct, same_indirect) refl

-- What later requests will return and the size of the file are no part of the map.
pub later-IsFile :
    (fs : Fs) (sv sv' : SfsVnode) (later : List Status)
    → IsFile fs sv
    → Sound later
    → sv'.inode.direct ≡ sv.inode.direct
    → sv'.inode.indirect ≡ sv.inode.indirect
    → IsFile (record fs { results = later }) sv'
later-IsFile fs sv sv' later v sound same_direct same_indirect =
    let same = λ (i : ℕ). later_block_of fs sv sv' later i same_direct same_indirect in
    record {
      space = record {
        map = v.space.map;
        covers = v.space.covers;
        beyond = v.space.beyond;
        sound = sound;
      };
      directs = ap length same_direct ∙ v.directs;
      super = v.super;
      placed = λ i ne. rw (same i) (v.placed i (λ z. ne (same i ∙ z)));
      distinct = λ i j ne e. v.distinct i j (λ z. ne (same i ∙ z)) (sym (same i) ∙ e ∙ same j);
      indirect_placed = λ ne. rw same_indirect (v.indirect_placed (λ z. ne (same_indirect ∙ z)));
      indirect_own = λ i ne e.
          v.indirect_own i (λ z. ne (same_indirect ∙ z)) (sym (same i) ∙ e ∙ same_indirect);
    }

-- A block in use is not one that was free.
pub used_ne_free : (fs : Fs) {k b : ℕ} → in_use fs k ≡ true → in_use fs b ≡ false → k ≢ b
used_ne_free fs u f e = cc (u, f, ap (in_use fs) e)

entry-zeros : (n i : ℕ) → entry (replicate n 0) i ≡ 0
entry-zeros zero i = refl
entry-zeros (suc n) zero = refl
entry-zeros (suc n) (suc i) = entry-zeros n i

-- A file without blocks.
pub empty-IsFile :
    (fs : Fs) (sv : SfsVnode)
    → HasSpace fs
    → in_use fs 0 ≡ true
    → sv.inode.direct ≡ replicate 15 0
    → sv.inode.indirect ≡ 0
    → IsFile fs sv
unfolding block_of through
empty-IsFile fs sv space super none_direct none_indirect = record {
  space = space;
  directs = ap length none_direct;
  super = super;
  placed = λ i ne. absurd (ne (hole i));
  distinct = λ i j ne e. absurd (ne (hole i));
  indirect_placed = λ ne. absurd (ne none_indirect);
  indirect_own = λ i ne. absurd (ne none_indirect);
}
  where
    hole : (i : ℕ) → block_of fs sv i ≡ 0
    hole i =
        rw (none_direct, entry-zeros 15 i, eq→== sv.inode.indirect 0 none_indirect) (ground arith)
