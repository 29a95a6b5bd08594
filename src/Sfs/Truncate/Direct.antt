-- ===== src/Sfs/Truncate/Direct.antt =====
-- The direct blocks in `sfs_truncate` of kern/fs/sfs/sfs_vnode.c.
use harvard_os161_operating.Prelude.{
  ◌>>=◌, ℕ, zero, suc, ◌+◌, ◌<◌, ◌≡◌, refl, sym, ap, ◌∙◌, ◌≢◌, inl, inr, Bool, false, ◌&&◌, not,
  Option, some, arith, ℕ_discrete, ltb, leb, ◌==◌, Bool-cases, get_elem?, length-set,
}
use harvard_os161_operating.Sfs.{Fs, SfsVnode, set_direct}
use harvard_os161_operating.Sfs.File.{IsFile, entry, get_elem?-entry, block_of}
use harvard_os161_operating.Sfs.Map.{block_of-direct}
use harvard_os161_operating.Sfs.MapDirect.{block_of-entry}
use harvard_os161_operating.Sfs.Truncate.{truncate_direct}
use harvard_os161_operating.Sfs.Truncate.Unlink.{bfree-Freed}
use harvard_os161_operating.Sfs.Truncate.Cut.{Cut, nothing-Cut, same-Cut, then-Cut, unlink-Cut}

-- The blocks that the rounds from `i` on take.
abbrev pub direct_gone : ℕ → ℕ → ℕ → Bool
direct_gone i blocklen k = leb i k && ltb k 15 && leb blocklen k

-- How the loop over the direct blocks ends.
pub record Loses (gone : ℕ → Bool) (fs : Fs) (sv : SfsVnode) (o : Option (SfsVnode × Fs))
    : Type 0 where
  pub file : SfsVnode
  pub after : Fs
  pub runs : o ≡ some (file, after)
  pub cut : Cut gone fs sv after file
  pub same_disk : after.disk ≡ fs.disk
  pub same_results : after.results ≡ fs.results

pub truncate_direct-Loses :
    (n i blocklen : ℕ) (sv : SfsVnode) (fs : Fs)
    → i + n ≡ 15
    → IsFile fs sv
    → Loses (direct_gone i blocklen) fs sv (truncate_direct n i blocklen sv fs)
unfolding truncate_direct
truncate_direct-Loses zero i blocklen sv fs sum v = record {
  file = sv;
  after = fs;
  runs = refl;
  cut = same-Cut (λ k _. ground arith) (nothing-Cut fs sv v);
  same_disk = refl;
  same_results = refl;
}
truncate_direct-Loses (suc n) i blocklen sv fs sum v =
    let lt : i < 15 = omega arith in
    let b : ℕ = entry sv.inode.direct i in
    let here : get_elem? sv.inode.direct i ≡ some b =
      get_elem?-entry sv.inode.direct i (omega (arith, v.directs)) in
    let at_i : block_of fs sv i ≡ b = block_of-entry fs sv i lt in
    elim (Bool-cases (leb blocklen i && not (b == 0))) [
      | inl past ↦
          let some_b : b ≢ 0 = ground (arith, past) in
          let (inside, used) = rw at_i at (v.placed i (λ z. some_b (sym at_i ∙ z))) in
          let f = bfree-Freed fs b v.space inside used in
          let one =
            unlink-Cut fs f.after sv (set_direct sv i 0) b i v f.space f.same_size f.cleared at_i
              some_b refl (length-set sv.inode.direct i 0 ∙ v.directs)
              (λ k.
                block_of-direct fs f.after sv i 0 k v.directs lt
                  (λ _. ap (λ d. d sv.inode.indirect) f.same_disk)) in
          let rest =
            truncate_direct-Loses n (i + 1) blocklen (set_direct sv i 0) f.after (omega arith)
              one.valid in
          record {
            file = rest.file;
            after = rest.after;
            runs = rw (here, ◌>>=◌, past, f.runs) rest.runs;
            cut =
                same-Cut (λ k _. ground (arith, past))
                  (then-Cut (λ k. i == k) (direct_gone (i + 1) blocklen) fs sv f.after
                    (set_direct sv i 0) rest.after rest.file one rest.cut);
            same_disk = rest.same_disk ∙ f.same_disk;
            same_results = rest.same_results ∙ f.same_results;
          }
      | inr stays ↦
          let rest = truncate_direct-Loses n (i + 1) blocklen sv fs (omega arith) v in
          record {
            file = rest.file;
            after = rest.after;
            runs = rw (here, ◌>>=◌, stays) rest.runs;
            cut = same-Cut (λ k ne. kept k ne at_i stays) rest.cut;
            same_disk = rest.same_disk;
            same_results = rest.same_results;
          }
    ]
  where
    kept :
        (k : ℕ)
        → block_of fs sv k ≢ 0
        → block_of fs sv i ≡ entry sv.inode.direct i
        → (leb blocklen i && not (entry sv.inode.direct i == 0)) ≡ false
        → direct_gone (i + 1) blocklen k ≡ direct_gone i blocklen k
    kept k ne at_i stays = elim (ℕ_discrete k i) [
      | yes e ↦
          let some_b : entry sv.inode.direct i ≢ 0 = λ z. ne (ap (block_of fs sv) e ∙ at_i ∙ z) in
          ground (arith, e, stays, some_b)
      | no other ↦ ground (arith, other)
    ]
