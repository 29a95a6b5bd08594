-- ===== src/Sfs/MapSteps.antt =====
-- Parts of `sfs_bmap` of kern/fs/sfs/sfs_vnode.c one after the other.
use harvard_os161_operating.Prelude.{
  Status, ℕ, ◌-◌, ◌≤◌, ◌<◌, ◌≡◌, refl, sym, ◌∙◌, ◌≢◌, Bool, List, [], arith, lt→ltb, le→ltb, eq→==,
  ne→==,
}
use harvard_os161_operating.Memory.{Memory}
use harvard_os161_operating.Sfs.{Fs, SfsVnode, word, set_indirect}
use harvard_os161_operating.Sfs.Device.{Sound}
use harvard_os161_operating.Sfs.File.{through, block_of, used_ne_free}
use harvard_os161_operating.Sfs.Map.{Extends, Takes, Takes-still}

pub block_of-word :
    (fs : Fs) (sv : SfsVnode) (n : ℕ)
    → sv.inode.indirect ≢ 0
    → 15 ≤ n
    → n < 143
    → block_of fs sv n ≡ word (fs.disk sv.inode.indirect) (n - 15)
unfolding block_of through
block_of-word fs sv n some_ind lo hi =
    rw (le→ltb n 15 lo, lt→ltb n 143 hi, ne→== sv.inode.indirect 0 some_ind) refl

pub block_of-hole :
    (fs : Fs) (sv : SfsVnode) (n : ℕ) → sv.inode.indirect ≡ 0 → 15 ≤ n → block_of fs sv n ≡ 0
unfolding block_of through
block_of-hole fs sv n none_yet lo =
    rw (le→ltb n 15 lo, eq→== sv.inode.indirect 0 none_yet) (ground arith)

-- A later request does not concern the map of free blocks.
pub later-Takes :
    {fs fs1 : Fs} {b : ℕ} (later : List Status) (disk : ℕ → Memory)
    → Takes fs fs1 b
    → Sound later
    → Takes fs (record fs1 { results = later; disk = disk }) b
later-Takes later disk t sound = record {
  inside = t.inside;
  was_free = t.was_free;
  marked = t.marked;
  space = record {
    map = t.space.map;
    covers = t.space.covers;
    beyond = t.space.beyond;
    sound = sound;
  };
  same_size = t.same_size;
}

-- The device gave some of its results before.
pub later-Extends :
    (fs : Fs) (sv : SfsVnode) (n : ℕ) (doalloc : Bool) (status : Status) (b : ℕ) (sv' : SfsVnode)
    (fs' : Fs) (later : List Status)
    → (fs.results ≡ [] → later ≡ [])
    → Extends (record fs { results = later }) sv n doalloc status b sv' fs'
    → Extends fs sv n doalloc status b sv' fs'
unfolding block_of
later-Extends fs sv n doalloc status b sv' fs' later none_left e = record {
  valid = e.valid;
  others = e.others;
  kept = e.kept;
  hands = e.hands;
  made = e.made;
  clean = e.clean;
  in_use_still = e.in_use_still;
  untouched = e.untouched;
  perfect = λ p. e.perfect (none_left p);
}

-- The indirect block was made before.
pub new-Extends :
    (fs fs1 : Fs) (sv : SfsVnode) (n id : ℕ) (doalloc : Bool) (status : Status) (b : ℕ)
    (sv' : SfsVnode) (fs' : Fs)
    → Takes fs fs1 id
    → ((k : ℕ) → k ≢ id → fs1.disk k ≡ fs.disk k)
    → ((i : ℕ) → block_of fs1 (set_indirect sv id) i ≡ block_of fs sv i)
    → (fs.results ≡ [] → fs1.results ≡ [])
    → Extends fs1 (set_indirect sv id) n doalloc status b sv' fs'
    → Extends fs sv n doalloc status b sv' fs'
new-Extends fs fs1 sv n id doalloc status b sv' fs' t elsewhere same none_left e = record {
  valid = e.valid;
  others = λ j ne. e.others j ne ∙ same j;
  kept = λ ne. e.kept (λ z. ne (sym (same n) ∙ z)) ∙ same n;
  hands = e.hands;
  made = e.made;
  clean = λ ok hole some_b.
      let (free, clear) = e.clean ok (same n ∙ hole) some_b in
      (ground (arith, t.marked b, free), clear);
  in_use_still = λ k u. e.in_use_still k (Takes-still t k u);
  untouched = λ k u ne.
      let other = used_ne_free fs u t.was_free in
      e.untouched k (Takes-still t k u) other ∙ elsewhere k other;
  perfect = λ p. e.perfect (none_left p);
}
