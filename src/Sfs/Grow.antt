-- ===== src/Sfs/Grow.antt =====
-- A file of kern/fs/sfs/sfs_vnode.c keeps its invariant when a block is taken for it.
use mathlib.Core.Path.{subst}
use harvard_os161_operating.Prelude.{
  ℕ, ◌<◌, ◌≡◌, refl, sym, ◌∙◌, ◌≢◌, inl, inr, true, false, arith, ℕ_discrete, ◌==◌, if◌then◌else◌,
  eq→==, ne→==, Bool-cases, length,
}
use harvard_os161_operating.Sfs.{Fs, SfsVnode, set_indirect}
use harvard_os161_operating.Sfs.Space.{HasSpace, in_use}
use harvard_os161_operating.Sfs.File.{IsFile, block_of, used_ne_free}

-- Blocks that are marked besides do no harm.
pub leak-IsFile :
    {fs fs' : Fs} {sv : SfsVnode} (b : ℕ)
    → IsFile fs sv
    → HasSpace fs'
    → fs'.nblocks ≡ fs.nblocks
    → ((k : ℕ) → in_use fs' k ≡ (if b == k then true else in_use fs k))
    → ((i : ℕ) → block_of fs' sv i ≡ block_of fs sv i)
    → IsFile fs' sv
leak-IsFile {fs} {fs'} {sv} b v space size marked same = record {
  space = space;
  directs = v.directs;
  super = still 0 v.super;
  placed = λ i ne.
      let (lt, u) = v.placed i (λ z. ne (same i ∙ z)) in
      (
        omega (arith, same i, lt),
        subst (λ x. in_use fs' x ≡ true) (sym (same i)) (still (block_of fs sv i) u),
      );
  distinct = λ i j ne e. v.distinct i j (λ z. ne (same i ∙ z)) (sym (same i) ∙ e ∙ same j);
  indirect_placed = λ ne. let (lt, u) = v.indirect_placed ne in (omega arith, still _ u);
  indirect_own = λ i ne e. v.indirect_own i ne (sym (same i) ∙ e);
}
  where
    still : (k : ℕ) → in_use fs k ≡ true → in_use fs' k ≡ true
    still k u = marked k ∙ elim (Bool-cases (b == k)) [ inl e ↦ rw e refl | inr e ↦ rw e u ]

-- A block that was free is put into a hole of the file.
pub link-IsFile :
    {fs fs' : Fs} {sv sv' : SfsVnode} (b n : ℕ)
    → IsFile fs sv
    → HasSpace fs'
    → fs'.nblocks ≡ fs.nblocks
    → ((k : ℕ) → in_use fs' k ≡ (if b == k then true else in_use fs k))
    → in_use fs b ≡ false
    → b < fs.nblocks
    → sv'.inode.indirect ≡ sv.inode.indirect
    → length sv'.inode.direct ≡ 15
    → ((i : ℕ) → block_of fs' sv' i ≡ (if n == i then b else block_of fs sv i))
    → IsFile fs' sv'
link-IsFile {fs} {fs'} {sv} {sv'} b n v space size marked was_free inside ind dirs same = record {
  space = space;
  directs = dirs;
  super = still 0 v.super;
  placed = λ i ne. elim (ℕ_discrete n i) [
    | yes e ↦ (
      omega (arith, hit i e),
      subst (λ x. in_use fs' x ≡ true) (sym (hit i e)) (ground (arith, marked b)),
    )
    | no other ↦
        let (lt, u) = v.placed i (λ z. ne (miss i other ∙ z)) in
        (
          omega (arith, miss i other),
          subst (λ x. in_use fs' x ≡ true) (sym (miss i other)) (still _ u),
        )
  ];
  distinct = λ i j ne e. elim (ℕ_discrete n i) [
    | yes at_i ↦ elim (ℕ_discrete n j) [
      | yes at_j ↦ sym at_i ∙ at_j
      | no off_j ↦
          let there : block_of fs sv j ≡ b = sym (miss j off_j) ∙ sym e ∙ hit i at_i in
          absurd (not_b j there (λ z. ne (e ∙ miss j off_j ∙ z)))
    ]
    | no off_i ↦
        let old : block_of fs sv i ≢ 0 = λ z. ne (miss i off_i ∙ z) in
        elim (ℕ_discrete n j) [
          | yes at_j ↦ absurd (not_b i (sym (miss i off_i) ∙ e ∙ hit j at_j) old)
          | no off_j ↦ v.distinct i j old (sym (miss i off_i) ∙ e ∙ miss j off_j)
        ]
  ];
  indirect_placed = λ ne.
      let (lt, u) = v.indirect_placed (λ z. ne (ind ∙ z)) in
      (omega (arith, ind), subst (λ x. in_use fs' x ≡ true) (sym ind) (still _ u));
  indirect_own = λ i ne e. elim (ℕ_discrete n i) [
    | yes at_i ↦
        let (_, u) = v.indirect_placed (λ z. ne (ind ∙ z)) in
        used_ne_free fs u was_free (sym ind ∙ sym e ∙ hit i at_i)
    | no off_i ↦ v.indirect_own i (λ z. ne (ind ∙ z)) (sym (miss i off_i) ∙ e ∙ ind)
  ];
}
  where
    still : (k : ℕ) → in_use fs k ≡ true → in_use fs' k ≡ true
    still k u = marked k ∙ elim (Bool-cases (b == k)) [ inl e ↦ rw e refl | inr e ↦ rw e u ]

    hit : (i : ℕ) → n ≡ i → block_of fs' sv' i ≡ b
    hit i e = rw (same i, eq→== n i e) refl

    miss : (i : ℕ) → n ≢ i → block_of fs' sv' i ≡ block_of fs sv i
    miss i ne = rw (same i, ne→== n i ne) refl

    not_b : (j : ℕ) → block_of fs sv j ≡ b → block_of fs sv j ≢ 0 → ⊥
    not_b j e ne = let (_, u) = v.placed j ne in used_ne_free fs u was_free e

-- An indirect block that was free, for a file that had none.
pub indirect-IsFile :
    {fs fs' : Fs} {sv : SfsVnode} (id : ℕ)
    → IsFile fs sv
    → HasSpace fs'
    → fs'.nblocks ≡ fs.nblocks
    → ((k : ℕ) → in_use fs' k ≡ (if id == k then true else in_use fs k))
    → in_use fs id ≡ false
    → id < fs.nblocks
    → ((i : ℕ) → block_of fs' (set_indirect sv id) i ≡ block_of fs sv i)
    → IsFile fs' (set_indirect sv id)
indirect-IsFile {fs} {fs'} {sv} id v space size marked was_free inside same =
    let taken : in_use fs' id ≡ true = ground (arith, marked id) in
    record {
      space = space;
      directs = v.directs;
      super = still 0 v.super;
      placed = λ i ne.
          let (lt, u) = v.placed i (λ z. ne (same i ∙ z)) in
          (
            omega (arith, same i, lt),
            subst (λ x. in_use fs' x ≡ true) (sym (same i)) (still (block_of fs sv i) u),
          );
      distinct = λ i j ne e. v.distinct i j (λ z. ne (same i ∙ z)) (sym (same i) ∙ e ∙ same j);
      indirect_placed = λ ne. (omega arith, taken);
      indirect_own = λ i ne e.
          let old : block_of fs sv i ≡ id = sym (same i) ∙ e in
          let (_, u) = v.placed i (λ z. ne (sym old ∙ z)) in used_ne_free fs u was_free old;
    }
  where
    still : (k : ℕ) → in_use fs k ≡ true → in_use fs' k ≡ true
    still k u = marked k ∙ elim (Bool-cases (id == k)) [ inl e ↦ rw e refl | inr e ↦ rw e u ]
