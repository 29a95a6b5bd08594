-- ===== src/Sfs/Truncate/Shorten.antt =====
-- What `sfs_truncate` of kern/fs/sfs/sfs_vnode.c leaves when the device has no errors.
use mathlib.Core.Path.{subst}
use harvard_os161_operating.Prelude.{
  Status, ℕ, ◌+◌, ◌-◌, ◌/◌, ◌<◌, ◌≡◌, refl, sym, ap, ◌∙◌, ◌≢◌, ◌⊎◌, inl, inr, Bool, true, false,
  List, arith, ltb, leb, ◌==◌, if◌then◌else◌, eq→==, ne→==, Bool-cases, length,
}
use harvard_os161_operating.Memory.{Memory}
use harvard_os161_operating.Sfs.{Fs, SfsVnode, word, set_indirect}
use harvard_os161_operating.Sfs.Device.{Sound}
use harvard_os161_operating.Sfs.Space.{HasSpace, in_use}
use harvard_os161_operating.Sfs.File.{IsFile, through, block_of}
use harvard_os161_operating.Sfs.Truncate.{set_size}
use harvard_os161_operating.Sfs.Truncate.Unlink.{Freed}
use harvard_os161_operating.Sfs.Truncate.Cut.{Cut}
use harvard_os161_operating.Sfs.Truncate.View.{view, settle-Cut}

-- Which blocks a file of `blocklen` blocks loses: those from `blocklen` on, but `blocklen` itself
-- only if it is a direct block.
abbrev pub past_end : ℕ → ℕ → Bool
past_end blocklen k = if ltb k 15 then leb blocklen k else ltb blocklen k

pub record Shortened (fs : Fs) (sv : SfsVnode) (len : ℕ) (sv' : SfsVnode) (fs' : Fs) : Type 0 where
  pub valid : IsFile fs' sv'
  pub sized : sv'.inode.size ≡ len
  pub marked_dirty : sv'.dirty ≡ true
  pub blocks :
      (i : ℕ)
      → block_of fs' sv' i ≡ (if past_end ((len + 511) / 512) i then 0 else block_of fs sv i)
  pub freed :
      (i : ℕ)
      → past_end ((len + 511) / 512) i ≡ true
      → block_of fs sv i ≢ 0
      → in_use fs' (block_of fs sv i) ≡ false
  -- The indirect block is kept, or free now.
  pub indirect :
      (sv'.inode.indirect ≡ sv.inode.indirect)
      ⊎ ((sv'.inode.indirect ≡ 0) × (in_use fs' sv.inode.indirect ≡ false))
  -- No other block is freed, none is taken, and the contents of the others stay.
  pub stay :
      (k : ℕ)
      → in_use fs k ≡ true
      → k ≢ sv.inode.indirect
      → ((i : ℕ)
          → past_end ((len + 511) / 512) i ≡ true
          → block_of fs sv i ≢ 0
          → block_of fs sv i ≢ k)
      → in_use fs' k ≡ true
  pub free_still : (k : ℕ) → in_use fs k ≡ false → in_use fs' k ≡ false
  pub untouched : (k : ℕ) → k ≢ sv.inode.indirect → fs'.disk k ≡ fs.disk k

-- The blocks are gone; only the size is to be set.
pub kept-Shortened :
    (fs : Fs) (sv : SfsVnode) (len : ℕ) (fs' : Fs) (sv' : SfsVnode) (later : List Status)
    → Sound later
    → Cut (past_end ((len + 511) / 512)) fs sv fs' sv'
    → ((k : ℕ) → k ≢ sv.inode.indirect → fs'.disk k ≡ fs.disk k)
    → Shortened fs sv len (set_size len sv') (record fs' { results = later })
unfolding set_size
kept-Shortened fs sv len fs' sv' later sound c same =
    let s = settle-Cut (past_end ((len + 511) / 512)) fs sv fs' sv' later len sound c in
    record {
      valid = s.valid;
      sized = refl;
      marked_dirty = refl;
      blocks = s.blocks;
      freed = s.freed;
      indirect = inl s.ind;
      stay = λ k u _ h. s.stay k u h;
      free_still = s.free_still;
      untouched = same;
    }

-- A file whose indirect block maps nothing loses it.
without_indirect :
    (after fs' : Fs) (sv : SfsVnode) (buffer : Memory) (len i : ℕ)
    → sv.inode.indirect ≢ 0
    → ((k : ℕ) → k < 128 → word buffer k ≡ 0)
    → block_of fs' (set_size len (set_indirect sv 0)) i
      ≡ block_of (view after sv.inode.indirect buffer) sv i
unfolding block_of through set_size
without_indirect after fs' sv buffer len i some_ind empty = elim (Bool-cases (ltb i 143)) [
  | inl lt ↦
      let none_there : i < 143 = ground (arith, lt) in
      rw
        (
          ne→== sv.inode.indirect 0 some_ind,
          eq→== sv.inode.indirect sv.inode.indirect refl,
          empty (i - 15) (omega arith),
        )
        (ground arith)
  | inr ge ↦ rw ge (ground arith)
]

-- The indirect block, which maps nothing, is freed.
drop_indirect-IsFile :
    {fs fs' : Fs} {sv sv' : SfsVnode}
    → IsFile fs sv
    → HasSpace fs'
    → fs'.nblocks ≡ fs.nblocks
    → ((k : ℕ) → in_use fs' k ≡ (if sv.inode.indirect == k then false else in_use fs k))
    → sv.inode.indirect ≢ 0
    → sv'.inode.indirect ≡ 0
    → sv'.inode.direct ≡ sv.inode.direct
    → ((i : ℕ) → block_of fs' sv' i ≡ block_of fs sv i)
    → IsFile fs' sv'
drop_indirect-IsFile {fs} {fs'} {sv} {sv'} v space size cleared some_ind gone dirs same = record {
  space = space;
  directs = ap length dirs ∙ v.directs;
  super = still 0 some_ind v.super;
  placed = λ i ne.
      let old : block_of fs sv i ≢ 0 = λ z. ne (same i ∙ z) in
      let (lt, u) = v.placed i old in
      let kept = still (block_of fs sv i) (λ e. v.indirect_own i some_ind (sym e)) u in
      (omega (arith, same i, lt), subst (λ x. in_use fs' x ≡ true) (sym (same i)) kept);
  distinct = λ i j ne e. v.distinct i j (λ z. ne (same i ∙ z)) (sym (same i) ∙ e ∙ same j);
  indirect_placed = λ ne. absurd (ne gone);
  indirect_own = λ i ne. absurd (ne gone);
}
  where
    still : (k : ℕ) → sv.inode.indirect ≢ k → in_use fs k ≡ true → in_use fs' k ≡ true
    still k ne u = rw (cleared k, ne→== sv.inode.indirect k ne) u

-- The blocks are gone, and the indirect block maps nothing.
pub dropped-Shortened :
    (fs : Fs) (sv : SfsVnode) (len : ℕ) (after : Fs) (sv' : SfsVnode) (buffer : Memory)
    → sv'.inode.indirect ≢ 0
    → (f : Freed after sv'.inode.indirect)
    → Cut (past_end ((len + 511) / 512)) fs sv (view after sv'.inode.indirect buffer) sv'
    → ((k : ℕ) → k < 128 → word buffer k ≡ 0)
    → ((k : ℕ) → k ≢ sv.inode.indirect → after.disk k ≡ fs.disk k)
    → Shortened fs sv len (set_size len (set_indirect sv' 0)) f.after
unfolding set_size
dropped-Shortened fs sv len after sv' buffer some_ind f c empty same =
    let file : SfsVnode = set_size len (set_indirect sv' 0) in
    let blocks = λ (i : ℕ). without_indirect after f.after sv' buffer len i some_ind empty in
    record {
      valid = drop_indirect-IsFile c.valid f.space f.same_size f.cleared some_ind refl refl blocks;
      sized = refl;
      marked_dirty = refl;
      blocks = λ i. blocks i ∙ c.blocks i;
      freed =
          λ i e ne. f.cleared (block_of fs sv i) ∙ still_free (block_of fs sv i) (c.freed i e ne);
      indirect =
          inr (refl, f.cleared sv.inode.indirect ∙ rw (eq→== sv'.inode.indirect _ c.ind) refl);
      stay = λ k u ne h.
          f.cleared k ∙ rw (ne→== sv'.inode.indirect k (λ e. ne (sym e ∙ c.ind))) (c.stay k u h);
      free_still = λ k e. f.cleared k ∙ still_free k (c.free_still k e);
      untouched = λ k ne. ap (λ d. d k) f.same_disk ∙ same k ne;
    }
  where
    still_free :
        (k : ℕ)
        → in_use after k ≡ false
        → (if sv'.inode.indirect == k then false else in_use after k) ≡ false
    still_free k e = elim (Bool-cases (sv'.inode.indirect == k)) [
      | inl here ↦ rw here refl
      | inr there ↦ rw there e
    ]
