-- ===== src/Sfs/Truncate/Cut.antt =====
-- A file of kern/fs/sfs/sfs_vnode.c that loses some of its blocks.
use mathlib.Core.Path.{subst}
use harvard_os161_operating.Prelude.{
  ℕ, ◌≡◌, refl, sym, ◌∙◌, ◌≢◌, inl, inr, Bool, true, false, ◌||◌, arith, ℕ_discrete, ◌==◌,
  if◌then◌else◌, ==→eq, eq→==, ne→==, Bool-cases, length,
}
use harvard_os161_operating.Sfs.{Fs, SfsVnode}
use harvard_os161_operating.Sfs.Space.{HasSpace, in_use}
use harvard_os161_operating.Sfs.File.{IsFile, block_of}
use harvard_os161_operating.Sfs.Truncate.Unlink.{unlink-IsFile}

-- The blocks in `gone` are holes now and marked free; the others are as they were, and no other
-- block has been freed.
pub record Cut (gone : ℕ → Bool) (fs : Fs) (sv : SfsVnode) (fs' : Fs) (sv' : SfsVnode)
    : Type 0 where
  pub valid : IsFile fs' sv'
  pub blocks : (i : ℕ) → block_of fs' sv' i ≡ (if gone i then 0 else block_of fs sv i)
  pub freed : (i : ℕ) → gone i ≡ true → block_of fs sv i ≢ 0 → in_use fs' (block_of fs sv i) ≡ false
  pub stay :
      (k : ℕ)
      → in_use fs k ≡ true
      → ((i : ℕ) → gone i ≡ true → block_of fs sv i ≢ 0 → block_of fs sv i ≢ k)
      → in_use fs' k ≡ true
  pub free_still : (k : ℕ) → in_use fs k ≡ false → in_use fs' k ≡ false
  pub ind : sv'.inode.indirect ≡ sv.inode.indirect

pub nothing-Cut : (fs : Fs) (sv : SfsVnode) → IsFile fs sv → Cut (λ i. false) fs sv fs sv
nothing-Cut fs sv v = record {
  valid = v;
  blocks = λ i. refl;
  freed = λ i d. cc d;
  stay = λ k u h. u;
  free_still = λ k f. f;
  ind = refl;
}

-- What is said of holes does not matter.
pub same-Cut :
    {gone gone' : ℕ → Bool} {fs : Fs} {sv : SfsVnode} {fs' : Fs} {sv' : SfsVnode}
    → ((i : ℕ) → block_of fs sv i ≢ 0 → gone i ≡ gone' i)
    → Cut gone fs sv fs' sv'
    → Cut gone' fs sv fs' sv'
same-Cut {gone} {gone'} {fs} {sv} {fs'} {sv'} e c = record {
  valid = c.valid;
  blocks = λ i. elim (ℕ_discrete (block_of fs sv i) 0) [
    | yes z ↦ ground (arith, c.blocks i, z)
    | no ne ↦ ground (arith, c.blocks i, e i ne)
  ];
  freed = λ i d ne. c.freed i (e i ne ∙ d) ne;
  stay = λ k u h. c.stay k u (λ i d ne. h i (sym (e i ne) ∙ d) ne);
  free_still = c.free_still;
  ind = c.ind;
}

or_left : (a b : Bool) → a ≡ true → a || b ≡ true
or_left a b e = rw e refl

or_right : (a b : Bool) → b ≡ true → a || b ≡ true
or_right a b e = elim (Bool-cases a) [ inl t ↦ rw t refl | inr f ↦ rw f e ]

module _ (gone more : ℕ → Bool) (fs : Fs) (sv : SfsVnode) (fs1 : Fs) (sv1 : SfsVnode) (fs2 : Fs)
    (sv2 : SfsVnode) where
  -- One loss after another.
  pub then-Cut :
      Cut gone fs sv fs1 sv1 → Cut more fs1 sv1 fs2 sv2 → Cut (λ i. gone i || more i) fs sv fs2 sv2
  then-Cut c d = record {
    valid = d.valid;
    blocks = λ i. ground (arith, c.blocks i, d.blocks i);
    freed = λ i e ne. elim (Bool-cases (gone i)) [
      | inl lost ↦ d.free_still (block_of fs sv i) (c.freed i lost ne)
      | inr left ↦
          let same : block_of fs1 sv1 i ≡ block_of fs sv i = ground (arith, c.blocks i, left) in
          subst (λ x. in_use fs2 x ≡ false) same (d.freed i (rw left at e) (λ z. ne (sym same ∙ z)))
    ];
    stay = λ k u h.
        d.stay k (c.stay k u (λ i e ne. h i (or_left (gone i) (more i) e) ne)) (λ i e ne at_k.
          elim (Bool-cases (gone i)) [
            | inl lost ↦ ne (ground (arith, c.blocks i, lost))
            | inr left ↦
                let same : block_of fs1 sv1 i ≡ block_of fs sv i =
                  ground (arith, c.blocks i, left) in
                h i (or_right (gone i) (more i) e) (λ z. ne (same ∙ z)) (sym same ∙ at_k)
          ]);
    free_still = λ k f. d.free_still k (c.free_still k f);
    ind = d.ind ∙ c.ind;
  }

-- One block is lost.
pub unlink-Cut :
    (fs fs' : Fs) (sv sv' : SfsVnode) (b n : ℕ)
    → IsFile fs sv
    → HasSpace fs'
    → fs'.nblocks ≡ fs.nblocks
    → ((k : ℕ) → in_use fs' k ≡ (if b == k then false else in_use fs k))
    → block_of fs sv n ≡ b
    → b ≢ 0
    → sv'.inode.indirect ≡ sv.inode.indirect
    → length sv'.inode.direct ≡ 15
    → ((i : ℕ) → block_of fs' sv' i ≡ (if n == i then 0 else block_of fs sv i))
    → Cut (λ i. n == i) fs sv fs' sv'
unlink-Cut fs fs' sv sv' b n v space size cleared here some_b ind dirs same = record {
  valid = unlink-IsFile b n v space size cleared here some_b ind dirs same;
  blocks = same;
  freed = λ i e ne.
      let at_n : n ≡ i = ==→eq n i e in
      let at_b : block_of fs sv i ≡ b = subst (λ x. block_of fs sv x ≡ b) at_n here in
      cleared (block_of fs sv i) ∙ rw (eq→== b (block_of fs sv i) (sym at_b)) refl;
  stay = λ k u h.
      let other : b ≢ k = λ e. h n (eq→== n n refl) (λ z. some_b (sym here ∙ z)) (here ∙ e) in
      cleared k ∙ rw (ne→== b k other) u;
  free_still = λ k f. cleared k ∙ elim (Bool-cases (b == k)) [ inl e ↦ rw e refl | inr e ↦ rw e f ];
  ind = ind;
}
