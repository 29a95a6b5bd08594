-- ===== src/Sfs/Words.antt =====
-- Words in a block of kern/fs/sfs.
use harvard_os161_operating.Prelude.{
  ℕ, ◌+◌, ◌*◌, ◌/◌, ◌%◌, ◌^◌, ◌<◌, ◌≡◌, refl, arith, ℕ_discrete, ◌==◌, if◌then◌else◌, eq→==, ne→==,
}
use harvard_os161_operating.Memory.{Memory}
use harvard_os161_operating.Sfs.{word, byte_of, put_word, zeros}

put_word-at :
    (m : Memory) (i w j k : ℕ)
    → k < 4
    → put_word m i w (4 * j + k) ≡ (if i == j then byte_of w k else m (4 * j + k))
unfolding put_word
put_word-at m i w j k h =
    let quotient : (4 * j + k) / 4 ≡ j = omega arith in
    let remainder : (4 * j + k) % 4 ≡ k = omega arith in rw (quotient, remainder) (ground arith)

-- The four bytes of a word make it up.
bytes-word :
    (w : ℕ)
    → w < 2 ^ 32
    → byte_of w 0 * 2 ^ 24 + byte_of w 1 * 2 ^ 16 + byte_of w 2 * 2 ^ 8 + byte_of w 3 ≡ w
unfolding byte_of
bytes-word w h = omega arith

-- Writing a word changes that word only.
pub word-put_word :
    (m : Memory) (i w j : ℕ)
    → w < 2 ^ 32
    → word (put_word m i w) j ≡ (if i == j then w else word m j)
unfolding word
word-put_word m i w j h =
    let b0 = put_word-at m i w j 0 (omega arith) in
    let start : 4 * j + 0 ≡ 4 * j = omega arith in
    let b0' = rw start at b0 in
    elim (ℕ_discrete i j) [
      | yes e ↦
          rw
            (
              b0',
              put_word-at m i w j 1 (omega arith),
              put_word-at m i w j 2 (omega arith),
              put_word-at m i w j 3 (omega arith),
              eq→== i j e,
            )
            (bytes-word w h)
      | no ne ↦
          rw
            (
              b0',
              put_word-at m i w j 1 (omega arith),
              put_word-at m i w j 2 (omega arith),
              put_word-at m i w j 3 (omega arith),
              ne→== i j ne,
            )
            refl
    ]

pub word-zeros : (j : ℕ) → word zeros j ≡ 0
unfolding word
word-zeros j = refl
