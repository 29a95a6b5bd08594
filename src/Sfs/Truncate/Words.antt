-- ===== src/Sfs/Truncate/Words.antt =====
-- The loop over the indirect block in `sfs_truncate` of kern/fs/sfs/sfs_vnode.c.
use harvard_os161_operating.Prelude.{
  ℕ, zero, suc, ◌+◌, ◌-◌, ◌≤◌, ◌<◌, ◌≡◌, refl, sym, ap, ◌∙◌, ◌≢◌, inl, inr, Bool, true, false, ◌&&◌,
  ◌||◌, not, Option, some, arith, ℕ_discrete, ltb, leb, ◌==◌, eq→==, Bool-cases,
}
use harvard_os161_operating.Memory.{Memory}
use harvard_os161_operating.Sfs.{Fs, SfsVnode, word, put_word}
use harvard_os161_operating.Sfs.File.{IsFile, block_of}
use harvard_os161_operating.Sfs.Map.{block_of-indirect}
use harvard_os161_operating.Sfs.MapSteps.{block_of-word}
use harvard_os161_operating.Sfs.Truncate.{truncate_words}
use harvard_os161_operating.Sfs.Truncate.Unlink.{Freed, bfree-Freed}
use harvard_os161_operating.Sfs.Truncate.Cut.{Cut, nothing-Cut, same-Cut, then-Cut, unlink-Cut}
use harvard_os161_operating.Sfs.Truncate.View.{view, disk-HasSpace}

-- The blocks that the rounds from `j` on take.
abbrev pub words_gone : ℕ → ℕ → ℕ → Bool
words_gone j blocklen k = leb (15 + j) k && ltb k 143 && ltb blocklen k

-- How the loop ends that starts with `hasnonzero`, `iddirty` and `idbuf`.
pub record Scans (j blocklen : ℕ) (hasnonzero iddirty : Bool) (idbuf : Memory) (fs : Fs)
    (sv : SfsVnode) (o : Option (Bool × Bool × Memory × Fs)) : Type 0 where
  pub nonzero : Bool
  pub changed : Bool
  pub buffer : Memory
  pub after : Fs
  pub runs : o ≡ some (nonzero, changed, buffer, after)
  pub cut :
      Cut
        (words_gone j blocklen)
        (view fs sv.inode.indirect idbuf)
        sv
        (view after sv.inode.indirect buffer)
        sv
  pub same_disk : after.disk ≡ fs.disk
  pub same_results : after.results ≡ fs.results
  pub empty :
      nonzero ≡ false → (hasnonzero ≡ false) × ((k : ℕ) → j ≤ k → k < 128 → word buffer k ≡ 0)
  pub clean : changed ≡ false → buffer ≡ idbuf
  pub stays_dirty : iddirty ≡ true → changed ≡ true

module _ (sv : SfsVnode) (some_ind : sv.inode.indirect ≢ 0) (blocklen : ℕ) where
  abbrev ind : ℕ
  ind = sv.inode.indirect

  shown : (fs : Fs) (idbuf : Memory) → (view fs ind idbuf).disk ind ≡ idbuf
  shown fs idbuf = rw (eq→== ind ind refl) refl

  -- Word `j` of the buffer is block `15 + j` of the file.
  at_word :
      (fs : Fs) (idbuf : Memory) (j : ℕ)
      → j < 128
      → block_of (view fs ind idbuf) sv (15 + j) ≡ word idbuf j
  at_word fs idbuf j lt =
      let offset : 15 + j - 15 ≡ j = omega arith in
      block_of-word (view fs ind idbuf) sv (15 + j) some_ind (omega arith) (omega arith)
      ∙ rw offset (ap (λ m. word m j) (shown fs idbuf))

  offset_shown :
      (fs fs' : Fs) (idbuf : Memory) (j : ℕ)
      → (view fs' ind (put_word idbuf j 0)).disk ind
        ≡ put_word ((view fs ind idbuf).disk ind) (15 + j - 15) 0
  offset_shown fs fs' idbuf j =
      let offset : 15 + j - 15 ≡ j = omega arith in
      rw offset (shown fs' (put_word idbuf j 0) ∙ ap (λ m. put_word m j 0) (sym (shown fs idbuf)))

  -- The block of word `j` is freed.
  pub take-Cut :
      (fs : Fs) (idbuf : Memory) (j : ℕ)
      → j < 128
      → word idbuf j ≢ 0
      → IsFile (view fs ind idbuf) sv
      → (f : Freed fs (word idbuf j))
      → Cut (λ k. 15 + j == k) (view fs ind idbuf) sv (view f.after ind (put_word idbuf j 0)) sv
  take-Cut fs idbuf j lt some_b v f =
      unlink-Cut (view fs ind idbuf) (view f.after ind (put_word idbuf j 0)) sv sv (word idbuf j)
        (15 + j) v (disk-HasSpace f.after _ f.space) f.same_size f.cleared (at_word fs idbuf j lt)
        some_b refl v.directs
        (λ i.
          block_of-indirect (view fs ind idbuf) (view f.after ind (put_word idbuf j 0)) sv (15 + j)
            0 i some_ind (omega arith) (omega arith) (omega arith)
            (offset_shown fs f.after idbuf j))

  pub truncate_words-Scans :
      (n j : ℕ) (hasnonzero iddirty : Bool) (idbuf : Memory) (fs : Fs)
      → j + n ≡ 128
      → IsFile (view fs ind idbuf) sv
      → Scans j blocklen hasnonzero iddirty idbuf fs sv
          (truncate_words n j blocklen hasnonzero iddirty idbuf fs)
  unfolding truncate_words
  truncate_words-Scans zero j hasnonzero iddirty idbuf fs sum v = record {
    nonzero = hasnonzero;
    changed = iddirty;
    buffer = idbuf;
    after = fs;
    runs = refl;
    cut = same-Cut (λ k _. ground arith) (nothing-Cut (view fs ind idbuf) sv v);
    same_disk = refl;
    same_results = refl;
    empty = λ e. (e, λ k lo hi. absurd (omega arith));
    clean = λ _. refl;
    stays_dirty = λ e. e;
  }
  truncate_words-Scans (suc n) j hasnonzero iddirty idbuf fs sum v =
      let lt : j < 128 = omega arith in
      let here = at_word fs idbuf j lt in
      elim (Bool-cases (ltb blocklen (15 + j) && not (word idbuf j == 0))) [
        | inl past ↦
            let some_b : word idbuf j ≢ 0 = ground (arith, past) in
            let (inside, used) = rw here at (v.placed (15 + j) (λ z. some_b (sym here ∙ z))) in
            let space = disk-HasSpace (view fs ind idbuf) fs.disk v.space in
            let f = bfree-Freed fs (word idbuf j) space inside used in
            let one = take-Cut fs idbuf j lt some_b v f in
            let rest =
              truncate_words-Scans n (j + 1) hasnonzero true (put_word idbuf j 0) f.after
                (omega arith) one.valid in
            record {
              nonzero = rest.nonzero;
              changed = rest.changed;
              buffer = rest.buffer;
              after = rest.after;
              runs = rw (truncate_words, past, f.runs) rest.runs;
              cut =
                  same-Cut (λ k _. ground (arith, past))
                    (then-Cut (λ k. 15 + j == k) (words_gone (j + 1) blocklen) (view fs ind idbuf)
                      sv (view f.after ind (put_word idbuf j 0)) sv
                      (view rest.after ind rest.buffer) sv one rest.cut);
              same_disk = rest.same_disk ∙ f.same_disk;
              same_results = rest.same_results ∙ f.same_results;
              empty = λ e.
                  let (was, later) = rest.empty e in
                  (
                    was,
                    λ k lo hi. elim (ℕ_discrete k j) [
                      | yes eq ↦
                          ap (word rest.buffer) eq
                          ∙ sym (at_word rest.after rest.buffer j lt)
                          ∙ ground (arith, rest.cut.blocks (15 + j), one.blocks (15 + j))
                      | no other ↦ later k (omega (arith, other)) hi
                    ],
                  );
              clean = λ e. absurd (cc (e, rest.stays_dirty refl));
              stays_dirty = λ _. rest.stays_dirty refl;
            }
        | inr stays ↦
            let rest =
              truncate_words-Scans n (j + 1) (hasnonzero || not (word idbuf j == 0)) iddirty idbuf
                fs (omega arith) v in
            record {
              nonzero = rest.nonzero;
              changed = rest.changed;
              buffer = rest.buffer;
              after = rest.after;
              runs = rw (truncate_words, stays) rest.runs;
              cut =
                  same-Cut
                    (λ k ne. elim (ℕ_discrete k (15 + j)) [
                      | yes e ↦
                          let some_b : word idbuf j ≢ 0 =
                            λ z. ne (ap (block_of (view fs ind idbuf) sv) e ∙ here ∙ z) in
                          ground (arith, e, stays, some_b)
                      | no other ↦ ground (arith, other)
                    ])
                    rest.cut;
              same_disk = rest.same_disk;
              same_results = rest.same_results;
              empty = λ e.
                  let (was, later) = rest.empty e in
                  let zero_here : word idbuf j ≡ 0 = ground (arith, was) in
                  (
                    ground (arith, was),
                    λ k lo hi. elim (ℕ_discrete k j) [
                      | yes eq ↦
                          ap (word rest.buffer) eq
                          ∙ sym (at_word rest.after rest.buffer j lt)
                          ∙ ground (arith, rest.cut.blocks (15 + j), here, zero_here)
                      | no other ↦ later k (omega (arith, other)) hi
                    ],
                  );
              clean = rest.clean;
              stays_dirty = rest.stays_dirty;
            }
      ]
