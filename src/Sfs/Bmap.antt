-- ===== src/Sfs/Bmap.antt =====
-- `sfs_bmap` of kern/fs/sfs/sfs_vnode.c.
use harvard_os161_operating.Prelude.{
  success, einval, is_success, ℕ, ◌-◌, ◌/◌, ◌%◌, ◌≤◌, ◌<◌, ◌≡◌, refl, ◌≢◌, inl, inr, Bool, false,
  some, [], arith, dec_lt, ℕ_discrete, lt→ltb, le→ltb, eq→==, ne→==, Bool-cases,
}
use harvard_os161_operating.Sfs.{Fs, SfsVnode, balloc, bmap_indirect, bmap}
use harvard_os161_operating.Sfs.Device.{rblock-Read}
use harvard_os161_operating.Sfs.Space.{balloc-Balloc}
use harvard_os161_operating.Sfs.File.{IsFile, block_of}
use harvard_os161_operating.Sfs.Map.{Maps, same-Extends}
use harvard_os161_operating.Sfs.MapDirect.{bmap_direct-Maps}
use harvard_os161_operating.Sfs.MapSteps.{block_of-hole, later-Extends}
use harvard_os161_operating.Sfs.MapIndirect.{through-Maps, new_indirect, made-Maps}

module _ (fs : Fs) (sv : SfsVnode) (n : ℕ) (lo : 15 ≤ n) (hi : n < 143) (v : IsFile fs sv) where
  -- The indirect block was read; the request ended with a status.
  read-Maps :
      (doalloc : Bool)
      → sv.inode.indirect ≢ 0
      → Maps fs sv n doalloc (bmap_indirect fs sv (n - 15) doalloc)
  unfolding bmap_indirect
  read-Maps doalloc some_ind =
      let ind : ℕ = sv.inode.indirect in
      let r = rblock-Read fs ind v.space.sound in
      elim (Bool-cases (is_success r.status)) [
        | inl ok ↦
            let none_left = λ (e : fs.results ≡ []). (r.perfect e).1 in
            let v' =
              same-Extends fs sv n false success (block_of fs sv n) r.later v r.sound (λ _. refl)
                (λ _ e. cc) (λ _. inl refl) in
            let m =
              through-Maps n lo hi (record fs { results = r.later }) sv (fs.disk ind) doalloc
                v'.valid some_ind refl in
            rw (ne→== ind 0 some_ind, r.runs, ok)
              (record {
                status = m.status;
                block = m.block;
                file = m.file;
                after = m.after;
                runs = m.runs;
                extends =
                    later-Extends fs sv n doalloc m.status m.block m.file m.after r.later none_left
                      m.extends;
              })
        | inr failed ↦
            rw (ne→== ind 0 some_ind, r.runs, failed)
              (record {
                status = r.status;
                block = 0;
                file = sv;
                after = record fs { results = r.later };
                runs = refl;
                extends =
                    same-Extends fs sv n doalloc r.status 0 r.later v r.sound
                      (λ ok. cc (ok, failed)) (λ ok. cc (ok, failed)) (λ e. inl (r.perfect e).0);
              })
      ]

  bmap_indirect-Maps :
      (doalloc : Bool) → Maps fs sv n doalloc (bmap_indirect fs sv (n - 15) doalloc)
  unfolding bmap_indirect new_indirect
  bmap_indirect-Maps doalloc = elim (ℕ_discrete sv.inode.indirect 0) [
    | no some_ind ↦ read-Maps doalloc some_ind
    | yes none_yet ↦ elim (Bool-cases doalloc) [
      | inl asked ↦ rw asked (
          rw (eq→== sv.inode.indirect 0 none_yet)
            (made-Maps n lo hi fs sv (balloc fs) v none_yet (balloc-Balloc fs v.space)))
      | inr reads ↦ rw reads (
          rw (eq→== sv.inode.indirect 0 none_yet) (record {
            status = success;
            block = 0;
            file = sv;
            after = fs;
            runs = refl;
            extends =
                same-Extends fs sv n false success 0 fs.results v v.space.sound
                  (λ _. block_of-hole fs sv n none_yet lo) (λ _ e. cc) (λ _. inl refl);
          }))
    ]
  ]

-- `sfs_bmap` of a block that an inode can map does not panic, whatever errors the device returns
-- but EINVAL, and keeps the file's map well-formed; only the asked entry can change, and only from
-- a hole. On success it hands back the block that the map has for it then, which is one where it
-- was asked to allocate, and one that was free and holds zeros if it was put into a hole. No other
-- block in use changes but the file's indirect block.
pub bmap-Maps :
    (fs : Fs) (sv : SfsVnode) (n : ℕ) (doalloc : Bool)
    → n < 143
    → IsFile fs sv
    → Maps fs sv n doalloc (bmap fs sv n doalloc)
unfolding bmap
bmap-Maps fs sv n doalloc fits v = elim (dec_lt n 15) [
  | yes lt ↦ rw (lt→ltb n 15 lt) (bmap_direct-Maps fs sv n lt v doalloc)
  | no ge ↦
      let one : (n - 15) / 128 ≡ 0 = omega arith in
      let offset : (n - 15) % 128 ≡ n - 15 = omega arith in
      rw (le→ltb n 15 (omega arith), one, offset)
        (bmap_indirect-Maps fs sv n (omega arith) fits v doalloc)
]

-- A block that no inode can map is refused with EINVAL, and nothing changes.
pub bmap_beyond :
    (fs : Fs) (sv : SfsVnode) (n : ℕ) (doalloc : Bool)
    → 143 ≤ n
    → bmap fs sv n doalloc ≡ some (einval, 0, sv, fs)
unfolding bmap
bmap_beyond fs sv n doalloc far =
    rw (le→ltb n 15 (omega arith), lt→ltb 0 ((n - 15) / 128) (omega arith)) refl
