-- ===== src/Sfs/MapIndirect.antt =====
-- `sfs_bmap` of kern/fs/sfs/sfs_vnode.c for the blocks behind the indirect block.
use harvard_os161_operating.Prelude.{
  Status, success, enospc, ◌>>=◌, is_success, ℕ, ◌-◌, ◌≤◌, ◌<◌, ◌≡◌, refl, sym, ◌∙◌, ◌≢◌, inl, inr,
  Bool, true, ◌&&◌, Option, some, List, [], arith, ◌==◌, if◌then◌else◌, eq→==, ne→==, Bool-cases,
}
use harvard_os161_operating.Memory.{Memory}
use harvard_os161_operating.Sfs.{
  Fs, SfsVnode, word, put_word, put_block, zeros, wblock, balloc, Mapped, hand_back, set_indirect,
  bmap_through,
}
use harvard_os161_operating.Sfs.Device.{Sound, after_write, wblock-Wrote, is_success-eq}
use harvard_os161_operating.Sfs.Space.{Balloc, full, fresh, balloc-Balloc}
use harvard_os161_operating.Sfs.Grow.{indirect-IsFile}
use harvard_os161_operating.Sfs.File.{IsFile, block_of, used_ne_free}
use harvard_os161_operating.Sfs.Map.{
  Takes, Maps, block_of-indirect, block_of-new, hand_back_lem, same-Extends, leak-Extends,
  link-Extends,
}
use harvard_os161_operating.Sfs.MapDirect.{Fresh-Takes}
use harvard_os161_operating.Sfs.MapSteps.{block_of-word, later-Takes, new-Extends}

-- What `bmap_through` does with what `sfs_wblock` returned, and with what `sfs_balloc` returned.
written : SfsVnode → ℕ → Status × Fs → Option Mapped
written sv b y = if is_success y.0 then hand_back b sv (y.1) else some (y.0, 0, sv, y.1)

through_alloc : SfsVnode → Memory → ℕ → Status × ℕ × Fs → Option Mapped
unfolding written
through_alloc sv idbuf idoff x =
    if is_success x.0
    then (wblock (x.2) (put_word idbuf idoff (x.1)) sv.inode.indirect >>= written sv (x.1))
    else some (x.0, 0, sv, x.2)

module _ (n : ℕ) (lo : 15 ≤ n) (hi : n < 143) where
  -- The word was to be written back; the request ended with `status`.
  written-Maps :
      (fs fs1 : Fs) (sv : SfsVnode) (doalloc : Bool) (b : ℕ) (status : Status) (later : List Status)
      → IsFile fs sv
      → sv.inode.indirect ≢ 0
      → block_of fs sv n ≡ 0
      → Takes fs fs1 b
      → ((k : ℕ) → k ≢ b → fs1.disk k ≡ fs.disk k)
      → fs1.disk b ≡ zeros
      → Sound later
      → (fs.results ≡ [] → status ≡ success)
      → Maps fs sv n doalloc (
          written sv b (
            status,
            after_write fs1
                (put_word (fs.disk sv.inode.indirect) (n - 15) b)
                sv.inode.indirect
                status
                later,
          ))
  unfolding written
  written-Maps fs fs1 sv doalloc b status later v some_ind hole t elsewhere clear sound perfect =
      let ind : ℕ = sv.inode.indirect in
      let ind_ne_b : ind ≢ b = used_ne_free fs (v.indirect_placed some_ind).1 t.was_free in
      let content : Memory = put_word (fs.disk ind) (n - 15) b in
      elim (Bool-cases (is_success status)) [
        | inl ok ↦
            let fs2 : Fs = record fs1 { results = later; disk = put_block fs1.disk ind content } in
            let t2 = later-Takes later (put_block fs1.disk ind content) t sound in
            rw ok (record {
              status = success;
              block = b;
              file = sv;
              after = fs2;
              runs =
                  hand_back_lem b sv fs2 t2.space
                    (λ ne. (omega (arith, t2.inside, t2.same_size), ground (arith, t2.marked b)));
              extends =
                  link-Extends fs fs2 sv sv n doalloc b v t2 refl v.directs
                    (λ i.
                      block_of-indirect fs fs2 sv n b i some_ind lo hi
                        (omega (arith, t.inside, v.space.covers, v.space.map.fits))
                        (rw (eq→== ind ind refl) refl))
                    hole (rw (ne→== b ind (λ e. ind_ne_b (sym e))) clear)
                    (λ k ne ne'. rw (ne→== k ind ne') (elsewhere k ne));
            })
        | inr failed ↦ rw failed (record {
          status = status;
          block = 0;
          file = sv;
          after = record fs1 { results = later };
          runs = refl;
          extends =
              leak-Extends fs (record fs1 { results = later }) sv n doalloc status b v
                (later-Takes later fs1.disk t sound) elsewhere failed (λ e. inl (perfect e));
        })
      ]

  allocated-Maps :
      (fs : Fs) (sv : SfsVnode) (doalloc : Bool) (o : Option (Status × ℕ × Fs))
      → IsFile fs sv
      → sv.inode.indirect ≢ 0
      → block_of fs sv n ≡ 0
      → Balloc fs o
      → Maps fs sv n doalloc (o >>= through_alloc sv (fs.disk sv.inode.indirect) (n - 15))
  unfolding through_alloc
  allocated-Maps fs sv doalloc _ v some_ind hole (full all_used) = record {
    status = enospc;
    block = 0;
    file = sv;
    after = fs;
    runs = refl;
    extends =
        same-Extends fs sv n doalloc enospc 0 fs.results v v.space.sound (λ e. cc) (λ e. cc)
          (λ _. inr refl);
  }
  allocated-Maps fs sv doalloc _ v some_ind hole (fresh {status = status} {b = b} {fs' = fs1} f) =
      elim (Bool-cases (is_success status)) [
        | inl ok ↦
            let ind : ℕ = sv.inode.indirect in
            let w = wblock-Wrote fs1 (put_word (fs.disk ind) (n - 15) b) ind f.space.sound in
            rw (ok, w.runs)
              (written-Maps fs fs1 sv doalloc b w.status w.later v some_ind hole (Fresh-Takes f)
                f.elsewhere (f.cleared (is_success-eq status ok)) w.sound
                (λ e. (w.perfect (f.perfect e).1).0))
        | inr failed ↦ rw failed (record {
          status = status;
          block = 0;
          file = sv;
          after = fs1;
          runs = refl;
          extends =
              leak-Extends fs fs1 sv n doalloc status b v (Fresh-Takes f) f.elsewhere failed
                (λ e. inl (f.perfect e).0);
        })
      ]

  -- The word is there, or a block is allocated for it.
  pub through-Maps :
      (fs : Fs) (sv : SfsVnode) (idbuf : Memory) (doalloc : Bool)
      → IsFile fs sv
      → sv.inode.indirect ≢ 0
      → idbuf ≡ fs.disk sv.inode.indirect
      → Maps fs sv n doalloc (bmap_through fs sv sv.inode.indirect idbuf (n - 15) doalloc)
  unfolding bmap_through through_alloc written
  through-Maps fs sv idbuf doalloc v some_ind loaded =
      let ind : ℕ = sv.inode.indirect in
      let block : ℕ = word (fs.disk ind) (n - 15) in
      let here : block_of fs sv n ≡ block = block_of-word fs sv n some_ind lo hi in
      rw loaded (elim (Bool-cases (block == 0 && doalloc)) [
        | inl needed ↦
            let hole : block ≡ 0 = ground (arith, needed) in
            rw needed (
              allocated-Maps fs sv doalloc (balloc fs) v some_ind (here ∙ hole)
                (balloc-Balloc fs v.space))
        | inr present ↦ rw present (record {
          status = success;
          block = block;
          file = sv;
          after = fs;
          runs =
              hand_back_lem block sv fs v.space
                (λ ne. rw here at (v.placed n (λ z. ne (sym here ∙ z))));
          extends =
              same-Extends fs sv n doalloc success block fs.results v v.space.sound (λ _. here)
                (λ _ asked. ground (arith, present, asked)) (λ _. inl refl);
        })
      ])

  -- What `bmap_indirect` does with what `sfs_balloc` returned.
  unfoldable pub new_indirect : SfsVnode → ℕ → Status × ℕ × Fs → Option Mapped
  new_indirect sv idoff x =
      if is_success x.0
      then bmap_through (x.2) (set_indirect sv (x.1)) (x.1) zeros idoff true
      else some (x.0, 0, sv, x.2)

  pub made-Maps :
      (fs : Fs) (sv : SfsVnode) (o : Option (Status × ℕ × Fs))
      → IsFile fs sv
      → sv.inode.indirect ≡ 0
      → Balloc fs o
      → Maps fs sv n true (o >>= new_indirect sv (n - 15))
  unfolding new_indirect
  made-Maps fs sv _ v none_yet (full all_used) = record {
    status = enospc;
    block = 0;
    file = sv;
    after = fs;
    runs = refl;
    extends =
        same-Extends fs sv n true enospc 0 fs.results v v.space.sound (λ e. cc) (λ e. cc)
          (λ _. inr refl);
  }
  made-Maps fs sv _ v none_yet (fresh {status = status} {b = id} {fs' = fs1} f) =
      elim (Bool-cases (is_success status)) [
        | inl ok ↦
            let clear = f.cleared (is_success-eq status ok) in
            let same = λ (i : ℕ). block_of-new fs fs1 sv id i none_yet clear in
            let made = indirect-IsFile id v f.space f.same_size f.marked f.was_free f.inside same in
            let some_id : id ≢ 0 = λ z. used_ne_free fs v.super f.was_free (sym z) in
            let m = through-Maps fs1 (set_indirect sv id) zeros true made some_id (sym clear) in
            rw ok (record {
              status = m.status;
              block = m.block;
              file = m.file;
              after = m.after;
              runs = m.runs;
              extends =
                  new-Extends fs fs1 sv n id true m.status m.block m.file m.after (Fresh-Takes f)
                    f.elsewhere same (λ e. (f.perfect e).1) m.extends;
            })
        | inr failed ↦ rw failed (record {
          status = status;
          block = 0;
          file = sv;
          after = fs1;
          runs = refl;
          extends =
              leak-Extends fs fs1 sv n true status id v (Fresh-Takes f) f.elsewhere failed
                (λ e. inl (f.perfect e).0);
        })
      ]
