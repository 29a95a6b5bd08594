-- ===== src/Sfs/Truncate/Unlink.antt =====
-- A block is freed and taken out of its file, in kern/fs/sfs/sfs_vnode.c.
use mathlib.Core.Path.{subst}
use harvard_os161_operating.Prelude.{
  ℕ, ◌<◌, ◌≡◌, refl, sym, ◌∙◌, ◌≢◌, true, false, some, arith, ◌==◌, if◌then◌else◌, eq→==, ne→==,
  length,
}
use harvard_os161_operating.Bitmap.Mark.{unmark_lem}
use harvard_os161_operating.Sfs.{Fs, SfsVnode, bfree}
use harvard_os161_operating.Sfs.Space.{HasSpace, in_use}
use harvard_os161_operating.Sfs.File.{IsFile, block_of}

-- What `sfs_bfree` leaves.
pub record Freed (fs : Fs) (b : ℕ) : Type 0 where
  pub after : Fs
  pub runs : bfree fs b ≡ some after
  pub cleared : (k : ℕ) → in_use after k ≡ (if b == k then false else in_use fs k)
  pub space : HasSpace after
  pub same_size : after.nblocks ≡ fs.nblocks
  pub same_disk : after.disk ≡ fs.disk
  pub same_results : after.results ≡ fs.results

-- A block that is marked used and lies on the disk is freed.
pub bfree-Freed : (fs : Fs) (b : ℕ) → HasSpace fs → b < fs.nblocks → in_use fs b ≡ true → Freed fs b
unfolding bfree
bfree-Freed fs b space inside used =
    let (map, runs, valid, bits, marks) =
      unmark_lem space.map b (omega (arith, space.covers)) used in
    record {
      after = record fs { freemap = map; freemap_dirty = true };
      runs = rw runs refl;
      cleared = marks;
      space = record {
        map = valid;
        covers = omega (arith, space.covers, bits);
        beyond = λ i lo hi.
            let old = space.beyond i lo (omega (arith, bits)) in ground (arith, marks i, old);
        sound = space.sound;
      };
      same_size = refl;
      same_disk = refl;
      same_results = refl;
    }

-- The file without block `n`, which is free now.
pub unlink-IsFile :
    {fs fs' : Fs} {sv sv' : SfsVnode} (b n : ℕ)
    → IsFile fs sv
    → HasSpace fs'
    → fs'.nblocks ≡ fs.nblocks
    → ((k : ℕ) → in_use fs' k ≡ (if b == k then false else in_use fs k))
    → block_of fs sv n ≡ b
    → b ≢ 0
    → sv'.inode.indirect ≡ sv.inode.indirect
    → length sv'.inode.direct ≡ 15
    → ((i : ℕ) → block_of fs' sv' i ≡ (if n == i then 0 else block_of fs sv i))
    → IsFile fs' sv'
unlink-IsFile {fs} {fs'} {sv} {sv'} b n v space size cleared here some_b ind dirs same = record {
  space = space;
  directs = dirs;
  super = still 0 (λ e. some_b e) v.super;
  placed = λ i ne.
      let (off, there) = stays i ne in
      let old : block_of fs sv i ≢ 0 = λ z. ne (there ∙ z) in
      let (lt, u) = v.placed i old in
      let other : b ≢ block_of fs sv i =
        λ e. off (v.distinct n i (λ z. some_b (sym here ∙ z)) (here ∙ e)) in
      (
        omega (arith, there),
        subst (λ x. in_use fs' x ≡ true) (sym there) (still (block_of fs sv i) other u),
      );
  distinct = λ i j ne e.
      let (_, at_i) = stays i ne in
      let (_, at_j) = stays j (λ z. ne (e ∙ z)) in
      v.distinct i j (λ z. ne (at_i ∙ z)) (sym at_i ∙ e ∙ at_j);
  indirect_placed = λ ne.
      let old : sv.inode.indirect ≢ 0 = λ z. ne (ind ∙ z) in
      let (lt, u) = v.indirect_placed old in
      let other : b ≢ sv.inode.indirect = λ e. v.indirect_own n old (here ∙ e) in
      (omega (arith, ind), subst (λ x. in_use fs' x ≡ true) (sym ind) (still _ other u));
  indirect_own = λ i ne e.
      let some_block : block_of fs' sv' i ≢ 0 = λ z. ne (sym e ∙ z) in
      let (_, there) = stays i some_block in
      v.indirect_own i (λ z. ne (ind ∙ z)) (sym there ∙ e ∙ ind);
}
  where
    still : (k : ℕ) → b ≢ k → in_use fs k ≡ true → in_use fs' k ≡ true
    still k ne u = rw (cleared k, ne→== b k ne) u

    stays : (i : ℕ) → block_of fs' sv' i ≢ 0 → (n ≢ i) × (block_of fs' sv' i ≡ block_of fs sv i)
    stays i ne =
        let off : n ≢ i = λ e. ne (rw (same i, eq→== n i e) refl) in
        (off, rw (same i, ne→== n i off) refl)
