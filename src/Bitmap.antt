-- ===== src/Bitmap.antt =====
-- ece344/os161/kern/lib/bitmap.c: arrays of bits in bytes.
-- The block `v` is a list of bytes; an access outside of it does not go on.
pub mod Byte
pub mod Valid
pub mod FirstFree
pub mod Mark
pub mod Create
mod Tests
use Prim.Native.Nat.{bit_and, bit_or}
use harvard_os161_operating.Prelude.{
  ◌>>=◌, ◌>>◌, guard, store, u32_mod, ℕ, zero, suc, ◌+◌, ◌-◌, ◌*◌, ◌/◌, ◌%◌, ◌^◌, Bool, ◌&&◌, not,
  Option, none, some, List, ltb, ◌==◌, if◌then◌else◌, get_elem?, replicate,
}

-- `struct bitmap`
pub record Bitmap : Type 0 where
  pub nbits : ℕ
  pub v : List ℕ

abbrev pub all_bits : ℕ
all_bits = 0xff

-- `DIVROUNDUP(a, b)` on `u_int32_t`
abbrev pub div_round_up : ℕ → ℕ → ℕ
div_round_up a b = (a + b - 1) % u32_mod / b

-- `(v & ((WORD_TYPE)1 << offset)) != 0`
unfoldable pub test_bit : ℕ → ℕ → Bool
test_bit w offset = not (bit_and w (2 ^ offset) == 0)

-- `v |= ((WORD_TYPE)1 << offset)`
unfoldable pub set_bit : ℕ → ℕ → ℕ
set_bit w offset = bit_or w (2 ^ offset)

-- `v &= ~mask` on a byte
pub clear_bit : ℕ → ℕ → ℕ
clear_bit w offset = bit_and w (0xff - 2 ^ offset)

-- `for (j=overbits; j<BITS_PER_WORD; j++) b->v[ix] |= 1 << j;`, with `n` rounds left.
pub fill_bits : ℕ → ℕ → ℕ → ℕ
fill_bits zero j w = w
fill_bits (suc n) j w = fill_bits n (j + 1) (set_bit w j)

-- The bits behind the last one are marked, so that they are never handed out.
pub mark_leftover : ℕ → ℕ → List ℕ → Option (List ℕ)
mark_leftover nbits words v =
    if ltb (nbits / 8) words
    then (let ix = words - 1 in
        let overbits = nbits - ix * 8 in
        guard (nbits / 8 == ix)
        >> (guard (ltb 0 overbits && ltb overbits 8)
            >> (get_elem? v ix >>= λ w. store v ix (fill_bits (8 - overbits) overbits w))))
    else some v

-- A block of `n` bytes after `bzero`.
abbrev pub zero_bytes : ℕ → List ℕ
zero_bytes n = replicate n 0

-- `bitmap_create`, with the results of its two calls of `kmalloc`; NULL is the inner `none`.
pub create : Bool → Bool → ℕ → Option (Option Bitmap)
create mem mem' nbits =
    let words = div_round_up nbits 8 in
    if mem && mem'
    then mark_leftover nbits words (zero_bytes words)
      >>= (λ v. some (some (record { nbits = nbits; v = v })))
    else some none

-- What `bitmap_alloc` returns: 0 with the index and the bitmap, or ENOSPC.
pub data Alloc : Type 0 where
  allocated : ℕ → Bitmap → Alloc
  no_space : Alloc

-- `for (offset = 0; offset < BITS_PER_WORD; offset++)`, with `n` rounds left; `none` after the loop
-- is the `assert(0)`.
unfoldable pub scan_byte : ℕ → ℕ → ℕ → Option ℕ
scan_byte zero offset w = none
scan_byte (suc n) offset w =
    let rest = scan_byte n (offset + 1) w in if test_bit w offset then rest else some offset

-- The byte `ix` has a bit to spare: take the first.
unfoldable pub take_bit : Bitmap → ℕ → ℕ → Option Alloc
take_bit b ix w = do
  offset ← scan_byte 8 0 w
  v' ← store b.v ix (set_bit w offset)
  guard (ltb (ix * 8 + offset) b.nbits)
  some (allocated (ix * 8 + offset) (record b { v = v' }))

-- `for (ix=0; ix<maxix; ix++)`, with `n` rounds left.
unfoldable pub alloc_from : Bitmap → ℕ → ℕ → Option Alloc
alloc_from b zero ix = some no_space
alloc_from b (suc n) ix = do
  w ← get_elem? b.v ix
  let rest = alloc_from b n (ix + 1)
  if w == all_bits then rest else take_bit b ix w

unfoldable pub alloc : Bitmap → Option Alloc
alloc b = alloc_from b (div_round_up b.nbits 8) 0

pub mark : Bitmap → ℕ → Option Bitmap
mark b index = do
  guard (ltb index b.nbits)
  w ← get_elem? b.v (index / 8)
  guard (not (test_bit w (index % 8)))
  v' ← store b.v (index / 8) (set_bit w (index % 8))
  some (record b { v = v' })

pub unmark : Bitmap → ℕ → Option Bitmap
unmark b index = do
  guard (ltb index b.nbits)
  w ← get_elem? b.v (index / 8)
  guard (test_bit w (index % 8))
  v' ← store b.v (index / 8) (clear_bit w (index % 8))
  some (record b { v = v' })

-- `bitmap_isset` has no check of its own.
unfoldable pub isset : Bitmap → ℕ → Option Bool
isset b index = get_elem? b.v (index / 8) >>= λ w. some (test_bit w (index % 8))
