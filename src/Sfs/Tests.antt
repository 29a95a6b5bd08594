-- ===== src/Sfs/Tests.antt =====
-- An empty file on a disk of 16 blocks of kern/fs/sfs, of which half are in use; the first request to
-- the device fails once.
use harvard_os161_operating.Prelude.{
  success, eio, ℕ, zero, suc, ◌<◌, ◌≡◌, refl, sym, ap, ◌∙◌, true, false, Option, none, some, [],
  ◌∷◌, arith, get_elem?, replicate,
}
use harvard_os161_operating.Bitmap.Valid.{IsValid}
use harvard_os161_operating.Sfs.{
  Fs, SfsVnode, word, put_word, put_block, zeros, d_io, rwblock, wblock, balloc, bused, Mapped,
  hand_back, set_indirect, bmap_through, bmap_indirect, bmap,
}
use harvard_os161_operating.Sfs.Device.{errors, rwblock_retries}
use harvard_os161_operating.Bitmap.Byte.{test_all_bits}
use harvard_os161_operating.Sfs.Space.{HasSpace}
use harvard_os161_operating.Sfs.File.{IsFile, empty-IsFile}
use harvard_os161_operating.Sfs.Map.{Maps}
use mathlib.Core.Path.{subst}
use harvard_os161_operating.Bitmap.{
  test_bit, set_bit, scan_byte, take_bit, alloc_from, alloc, isset,
}
use harvard_os161_operating.Sfs.Truncate.{truncate}
use harvard_os161_operating.Sfs.Truncate.Finish.{Truncates, truncate-Truncates}
use harvard_os161_operating.Sfs.Bmap.{bmap-Maps}

abbrev small : Fs
small = record {
  disk = λ b a. 7;
  results = eio ∷ success ∷ [];
  nblocks = 16;
  freemap = record { nbits = 16; v = 255 ∷ 0 ∷ [] };
  freemap_dirty = false;
}

abbrev empty : SfsVnode
empty = record {
  ino = 3;
  inode = record { size = 0; file_type = 1; linkcount = 1; direct = replicate 15 0; indirect = 0 };
  dirty = false;
}

small-map : IsValid small.freemap
small-map = record {
  fits = omega arith;
  block = refl;
  bytes = one_byte;
  leftover = λ i lo hi. absurd (omega arith);
}
  where
    one_byte : (i w : ℕ) → get_elem? (255 ∷ 0 ∷ []) i ≡ some w → w < 256
    one_byte zero w e = ground arith
    one_byte (suc zero) w e = ground arith
    one_byte (suc (suc i)) w e = cc e

small-HasSpace : HasSpace small
small-HasSpace = record {
  map = small-map;
  covers = omega arith;
  beyond = λ i lo hi. absurd (omega arith);
  sound = (refl, (refl, tt));
}

bmap-Maps_example : Maps small empty 20 true (bmap small empty 20 true)
bmap-Maps_example =
    bmap-Maps small empty 20 true (omega arith)
      (empty-IsFile small empty small-HasSpace (test_all_bits 0 (omega arith)) refl refl)

rwblock_retries_example :
    (rwblock 10 (record small { results = errors 2 (success ∷ []) })
      ≡ some (success, record small { results = [] }))
    × (rwblock 10 (record small { results = errors 11 [] })
        ≡ some (eio, record small { results = [] }))
rwblock_retries_example = rwblock_retries 2 small [] (omega arith)

abbrev quiet : Fs
quiet = record small { results = [] }

-- The file after block 20 was asked for: 8 is the indirect block, and 9 the new one.
abbrev grown : Fs
grown = record quiet {
  disk = put_block (put_block (put_block quiet.disk 8 zeros) 9 zeros) 8 (put_word zeros 5 9);
  freemap = record { nbits = 16; v = 255 ∷ 3 ∷ [] };
  freemap_dirty = true;
}

abbrev grown_file : SfsVnode
grown_file = set_indirect empty 8

bmap_grows : bmap quiet empty 20 true ≡ some (success, 9, grown_file, grown)
unfolding bmap bmap_indirect bmap_through balloc hand_back bused wblock rwblock d_io word alloc
    alloc_from take_bit scan_byte test_bit set_bit isset
bmap_grows = refl

quiet-HasSpace : HasSpace quiet
quiet-HasSpace = record {
  map = small-map;
  covers = omega arith;
  beyond = λ i lo hi. absurd (omega arith);
  sound = tt;
}

grown-IsFile : IsFile grown grown_file
grown-IsFile =
    let m : Maps quiet empty 20 true (bmap quiet empty 20 true) =
      bmap-Maps quiet empty 20 true (omega arith)
        (empty-IsFile quiet empty quiet-HasSpace (test_all_bits 0 (omega arith)) refl refl) in
    let ends : Path (SfsVnode × Fs) (m.file, m.after) (grown_file, grown) =
      ap (λ (o : Option Mapped). elim o [ none ↦ (empty, quiet) | some x ↦ (x.2, x.3) ])
        (sym m.runs ∙ bmap_grows) in
    subst (λ x. IsFile (x.1) (x.0)) ends m.extends.valid

truncate-Truncates_example : Truncates grown grown_file 512 (truncate grown grown_file 512)
truncate-Truncates_example = truncate-Truncates grown grown_file 512 (omega arith) refl grown-IsFile
