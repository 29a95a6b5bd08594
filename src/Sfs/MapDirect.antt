-- ===== src/Sfs/MapDirect.antt =====
-- `sfs_bmap` of kern/fs/sfs/sfs_vnode.c for the direct blocks.
use harvard_os161_operating.Prelude.{
  Status, success, enospc, ◌>>=◌, is_success, ℕ, ◌<◌, ◌≡◌, refl, sym, ◌∙◌, inl, inr, Bool, ◌&&◌,
  Option, some, arith, ◌==◌, if◌then◌else◌, lt→ltb, Bool-cases, length-set,
}
use harvard_os161_operating.Sfs.{Fs, SfsVnode, balloc, Mapped, hand_back, set_direct, bmap_direct}
use harvard_os161_operating.Sfs.Device.{is_success-eq}
use harvard_os161_operating.Sfs.Space.{Fresh, Balloc, full, fresh, balloc-Balloc}
use harvard_os161_operating.Sfs.File.{IsFile, entry, get_elem?-entry, block_of, used_ne_free}
use harvard_os161_operating.Sfs.Map.{
  Takes, Maps, block_of-direct, hand_back_lem, same-Extends, leak-Extends, link-Extends,
}

pub block_of-entry :
    (fs : Fs) (sv : SfsVnode) (n : ℕ) → n < 15 → block_of fs sv n ≡ entry sv.inode.direct n
unfolding block_of
block_of-entry fs sv n h = rw (lt→ltb n 15 h) refl

pub Fresh-Takes : {fs fs' : Fs} {status : Status} {b : ℕ} → Fresh fs status b fs' → Takes fs fs' b
Fresh-Takes f = record {
  inside = f.inside;
  was_free = f.was_free;
  marked = f.marked;
  space = f.space;
  same_size = f.same_size;
}

-- What `bmap_direct` does with what `sfs_balloc` returned.
direct_alloc : SfsVnode → ℕ → Status × ℕ × Fs → Option Mapped
direct_alloc sv n x =
    if is_success x.0 then hand_back (x.1) (set_direct sv n (x.1)) (x.2) else some (x.0, 0, sv, x.2)

module _ (fs : Fs) (sv : SfsVnode) (n : ℕ) (lt : n < 15) (v : IsFile fs sv) where
  linked :
      (doalloc : Bool) (o : Option (Status × ℕ × Fs))
      → Balloc fs o
      → entry sv.inode.direct n ≡ 0
      → Maps fs sv n doalloc (o >>= direct_alloc sv n)
  unfolding direct_alloc
  linked doalloc _ (full all_used) hole = record {
    status = enospc;
    block = 0;
    file = sv;
    after = fs;
    runs = refl;
    extends =
        same-Extends fs sv n doalloc enospc 0 fs.results v v.space.sound (λ e. cc) (λ e. cc)
          (λ _. inr refl);
  }
  linked doalloc _ (fresh {status = status} {b = b} {fs' = fs'} f) hole =
      elim (Bool-cases (is_success status)) [
        | inl ok ↦
            let done : status ≡ success = is_success-eq status ok in
            record {
              status = success;
              block = b;
              file = set_direct sv n b;
              after = fs';
              runs = rw ok (
                  hand_back_lem b (set_direct sv n b) fs' f.space
                    (λ ne. (omega (arith, f.inside, f.same_size), ground (arith, f.marked b))));
              extends =
                  link-Extends fs fs' sv (set_direct sv n b) n doalloc b v (Fresh-Takes f) refl
                    (length-set sv.inode.direct n b ∙ v.directs)
                    (λ i. block_of-direct fs fs' sv n b i v.directs lt (λ ne.
                      f.elsewhere sv.inode.indirect
                        (used_ne_free fs (v.indirect_placed ne).1 f.was_free)))
                    (block_of-entry fs sv n lt ∙ hole) (f.cleared done)
                    (λ k ne _. f.elsewhere k ne);
            }
        | inr failed ↦ record {
          status = status;
          block = 0;
          file = sv;
          after = fs';
          runs = rw failed refl;
          extends =
              leak-Extends fs fs' sv n doalloc status b v (Fresh-Takes f) f.elsewhere failed
                (λ e. inl (f.perfect e).0);
        }
      ]

  pub bmap_direct-Maps : (doalloc : Bool) → Maps fs sv n doalloc (bmap_direct fs sv n doalloc)
  unfolding bmap_direct direct_alloc
  bmap_direct-Maps doalloc =
      let here = get_elem?-entry sv.inode.direct n (omega (arith, v.directs)) in
      elim (Bool-cases (entry sv.inode.direct n == 0 && doalloc)) [
        | inl needed ↦
            let hole : entry sv.inode.direct n ≡ 0 = ground (arith, needed) in
            rw (here, needed) (linked doalloc (balloc fs) (balloc-Balloc fs v.space) hole)
        | inr present ↦
            let here' = block_of-entry fs sv n lt in
            rw (here, present)
              (record {
                status = success;
                block = entry sv.inode.direct n;
                file = sv;
                after = fs;
                runs =
                    hand_back_lem (entry sv.inode.direct n) sv fs v.space
                      (λ ne. rw here' at (v.placed n (λ z. ne (sym here' ∙ z))));
                extends =
                    same-Extends fs sv n doalloc success (entry sv.inode.direct n) fs.results v
                      v.space.sound (λ _. here') (λ _ asked. ground (arith, present, asked))
                      (λ _. inl refl);
              })
      ]
