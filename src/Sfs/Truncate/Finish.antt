-- ===== src/Sfs/Truncate/Finish.antt =====
-- `sfs_truncate` of kern/fs/sfs/sfs_vnode.c on a device without errors.
use mathlib.Core.Path.{subst}
use harvard_os161_operating.Prelude.{
  Status, success, int_limit, ℕ, ◌+◌, ◌/◌, ◌≤◌, ◌<◌, ◌≡◌, refl, sym, ap, ◌∙◌, ◌≢◌, inl, inr, Bool,
  false, ◌&&◌, ◌||◌, not, Option, some, List, [], arith, dec_lt, ltb, ◌==◌, lt→ltb, ne→==,
  Bool-cases,
}
use harvard_os161_operating.Memory.{Memory}
use harvard_os161_operating.Sfs.{Fs, SfsVnode, put_block, set_indirect}
use harvard_os161_operating.Sfs.Device.{Sound, wblock-Wrote, rblock-Read}
use harvard_os161_operating.Sfs.File.{IsFile, block_of, later-IsFile}
use harvard_os161_operating.Sfs.MapSteps.{block_of-hole}
use harvard_os161_operating.Sfs.Truncate.{set_size, truncate_end, truncate_indirect, truncate}
use harvard_os161_operating.Sfs.Truncate.Unlink.{bfree-Freed}
use harvard_os161_operating.Sfs.Truncate.Cut.{Cut, same-Cut, then-Cut}
use harvard_os161_operating.Sfs.Truncate.Direct.{direct_gone, truncate_direct-Loses}
use harvard_os161_operating.Sfs.Truncate.View.{view, put_block-same, disk-HasSpace}
use harvard_os161_operating.Sfs.Truncate.Words.{Scans, words_gone, truncate_words-Scans}
use harvard_os161_operating.Sfs.Truncate.Shorten.{
  Shortened, past_end, kept-Shortened, dropped-Shortened,
}

-- How `sfs_truncate`, or a part of it, ends.
pub record Truncates (fs : Fs) (sv : SfsVnode) (len : ℕ) (o : Option (Status × SfsVnode × Fs))
    : Type 0 where
  pub file : SfsVnode
  pub after : Fs
  pub runs : o ≡ some (success, file, after)
  pub short : Shortened fs sv len file after

-- A block that no inode maps.
block_of-far : (fs : Fs) (sv : SfsVnode) (k : ℕ) → 143 ≤ k → block_of fs sv k ≡ 0
unfolding block_of
block_of-far fs sv k far = ground arith

-- The direct blocks of `fs` and `sv` are gone in `fs0` and `sv0`, the others not yet.
module _ (fs : Fs) (sv : SfsVnode) (len : ℕ) (fs0 : Fs) (sv0 : SfsVnode)
    (c0 : Cut (direct_gone 0 ((len + 511) / 512)) fs sv fs0 sv0) (same_disk0 : fs0.disk ≡ fs.disk)
    (none_left : fs0.results ≡ []) where
  abbrev bl : ℕ
  bl = (len + 511) / 512

  abbrev ind : ℕ
  ind = sv0.inode.indirect

  -- Nothing is behind the indirect block, or nothing there is past the end.
  direct_only :
      (ltb bl 142 && not (ind == 0)) ≡ false
      → Truncates fs sv len (some (success, set_size len sv0, fs0))
  direct_only small = record {
    file = set_size len sv0;
    after = fs0;
    runs = refl;
    short =
        kept-Shortened fs sv len fs0 sv0 fs0.results c0.valid.space.sound
          (same-Cut
            (λ k ne.
              let near : k < 143 = elim (dec_lt k 143) [
                | yes h ↦ h
                | no h ↦ absurd (ne (block_of-far fs sv k (omega arith)))
              ] in
              let held : 15 ≤ k → sv.inode.indirect ≢ 0 = λ lo z. ne (block_of-hole fs sv k z lo) in
              ground (arith, near, held, c0.ind, small))
            c0)
          (λ k _. ap (λ d. d k) same_disk0);
  }

  -- The buffer holds the indirect block.
  begin-Cut :
      (later : List Status)
      → Sound later
      → Cut (λ i. false) fs0 sv0 (view (record fs0 { results = later }) ind (fs0.disk ind)) sv0
  unfolding block_of
  begin-Cut later sound =
      subst (λ d. Cut (λ i. false) fs0 sv0 (record fs0 { results = later; disk = d }) sv0)
        (sym (put_block-same fs0.disk ind))
        (record {
          valid = later-IsFile fs0 sv0 sv0 later c0.valid sound refl refl;
          blocks = λ i. refl;
          freed = λ i d. cc d;
          stay = λ k u h. u;
          free_still = λ k f. f;
          ind = refl;
        })

  -- The loop over the indirect block has ended.
  all_gone :
      (after : Fs) (buffer : Memory) (later : List Status)
      → Sound later
      → Cut
          (words_gone 0 bl)
          (view (record fs0 { results = later }) ind (fs0.disk ind))
          sv0
          (view after ind buffer)
          sv0
      → Cut (past_end bl) fs sv (view after ind buffer) sv0
  all_gone after buffer later sound c =
      let fs1 : Fs = view (record fs0 { results = later }) ind (fs0.disk ind) in
      let begun =
        then-Cut (direct_gone 0 bl) (λ i. false) fs sv fs0 sv0 fs1 sv0 c0 (begin-Cut later sound) in
      same-Cut
        (λ k ne. elim (dec_lt k 143) [
          | yes near ↦ ground (arith, near)
          | no far ↦ absurd (ne (block_of-far fs sv k (omega arith)))
        ])
        (then-Cut (λ i. direct_gone 0 bl i || false) (words_gone 0 bl) fs sv fs1 sv0
          (view after ind buffer) sv0 begun c)

  module _ (some_ind : ind ≢ 0) (later : List Status) (sound : Sound later)
      (o : Option (Bool × Bool × Memory × Fs))
      (s : Scans 0 bl false false (fs0.disk ind) (record fs0 { results = later }) sv0 o)
      (quiet : later ≡ []) where
    total : Cut (past_end bl) fs sv (view s.after ind s.buffer) sv0
    total = all_gone s.after s.buffer later sound s.cut

    elsewhere : (k : ℕ) → k ≢ sv.inode.indirect → s.after.disk k ≡ fs.disk k
    elsewhere k ne = ap (λ d. d k) (s.same_disk ∙ same_disk0)

    ended : Truncates fs sv len (truncate_end len ind sv0 (s.nonzero, s.changed, s.buffer, s.after))
    unfolding truncate_end
    ended = elim (Bool-cases s.nonzero) [
      | inr empty ↦
          let (inside, used) = total.valid.indirect_placed some_ind in
          let space = disk-HasSpace (view s.after ind s.buffer) s.after.disk total.valid.space in
          let f = bfree-Freed s.after ind space inside used in
          rw (empty, f.runs)
            (record {
              file = set_size len (set_indirect sv0 0);
              after = f.after;
              runs = refl;
              short =
                  dropped-Shortened fs sv len s.after sv0 s.buffer some_ind f total
                    (λ k lt. (s.empty empty).1 k (omega arith) lt) elsewhere;
            })
      | inl held ↦ elim (Bool-cases s.changed) [
        | inl changed ↦
            let w = wblock-Wrote s.after s.buffer ind total.valid.space.sound in
            let done : w.status ≡ success = (w.perfect (s.same_results ∙ quiet)).0 in
            rw (held, changed, w.runs, done)
              (record {
                file = set_size len sv0;
                after = record (view s.after ind s.buffer) { results = w.later };
                runs = refl;
                short =
                    kept-Shortened fs sv len (view s.after ind s.buffer) sv0 w.later w.sound total
                      (λ k ne. rw (ne→== k ind (λ e. ne (e ∙ c0.ind))) (elsewhere k ne));
              })
        | inr clean ↦
            let same : put_block s.after.disk ind s.buffer ≡ s.after.disk =
              ap (put_block s.after.disk ind) (s.clean clean ∙ ap (λ d. d ind) (sym s.same_disk))
              ∙ put_block-same s.after.disk ind in
            let c =
              subst (λ d. Cut (past_end bl) fs sv (record (s.after) { disk = d }) sv0) same total in
            rw (held, clean)
              (record {
                file = set_size len sv0;
                after = s.after;
                runs = refl;
                short =
                    kept-Shortened fs sv len s.after sv0 s.after.results c.valid.space.sound c
                      elsewhere;
              })
      ]
    ]

  indirect_part : Truncates fs sv len (truncate_indirect len bl sv0 fs0)
  unfolding truncate_indirect
  indirect_part = elim (Bool-cases (ltb bl 142 && not (ind == 0))) [
    | inr small ↦ rw small (direct_only small)
    | inl more ↦
        let some_ind : ind ≢ 0 = ground (arith, more) in
        let r = rblock-Read fs0 ind c0.valid.space.sound in
        let (ok, quiet) = r.perfect none_left in
        let s =
          truncate_words-Scans sv0 some_ind bl 128 0 false false (fs0.disk ind)
            (record fs0 { results = r.later }) refl (begin-Cut r.later r.sound).valid in
        rw (more, r.runs, ok, s.runs) (ended some_ind r.later r.sound _ s quiet)
  ]

-- On a device without errors `sfs_truncate` of a file with a well-formed map succeeds, whatever the
-- length below the limit of an `int`: the size is set, the map stays well-formed, every block past
-- the new end is a hole and marked free, and no other block of the file or the disk is lost. The
-- block right at the new end is past it if it is a direct block, and is kept if it lies behind the
-- indirect block. The indirect block is kept or freed; the contents of all other blocks stay.
pub truncate-Truncates :
    (fs : Fs) (sv : SfsVnode) (len : ℕ)
    → len + 511 < int_limit
    → fs.results ≡ []
    → IsFile fs sv
    → Truncates fs sv len (truncate fs sv len)
unfolding truncate
truncate-Truncates fs sv len fits none_left v =
    let d = truncate_direct-Loses 15 0 ((len + 511) / 512) sv fs refl v in
    let e = indirect_part fs sv len d.after d.file d.cut d.same_disk (d.same_results ∙ none_left) in
    rw (lt→ltb (len + 511) int_limit fits, d.runs) e
