-- ===== src/Kheap/Sizes.antt =====
-- The block sizes of kern/lib/kheap.c, and where the blocks of a page lie.
use harvard_os161_operating.Prelude.{
  ℕ, zero, suc, ◌+◌, ◌*◌, ◌/◌, ◌%◌, ◌≤◌, ◌<◌, ◌≡◌, refl, ap, ◌∙◌, inl, inr, false, some, List, [],
  ◌∷◌, arith, leb, leb→le, Bool-cases, get_elem?, get_elem?-some, get_elem?-none,
}
use harvard_os161_operating.Kheap.{sizes, size_of, blocktype_from, blocktype}

-- What holds at each of the eight sizes holds at the size of every block type.
at_sizes :
    (P : ℕ → Type 0)
    → P 16 × P 32 × P 64 × P 128 × P 256 × P 512 × P 1024 × P 2048
    → (t : ℕ) → t < 8
    → P (size_of t)
unfolding size_of
at_sizes P h zero lt = h.0
at_sizes P h (suc zero) lt = h.1
at_sizes P h (suc (suc zero)) lt = h.2
at_sizes P h (suc (suc (suc zero))) lt = h.3
at_sizes P h (suc (suc (suc (suc zero)))) lt = h.4
at_sizes P h (suc (suc (suc (suc (suc zero))))) lt = h.5
at_sizes P h (suc (suc (suc (suc (suc (suc zero)))))) lt = h.6
at_sizes P h (suc (suc (suc (suc (suc (suc (suc zero))))))) lt = h.7
at_sizes P h (suc (suc (suc (suc (suc (suc (suc (suc t)))))))) lt = absurd (omega arith)

-- A size is a number of words, at least four, and at least two blocks of it fill a page.
pub size_bounds :
    (t : ℕ)
    → t < 8
    → (16 ≤ size_of t)
      × (size_of t / 4 * 4 ≡ size_of t)
      × (2 ≤ 4096 / size_of t)
      × (4096 / size_of t ≤ 256)
      × (4096 / size_of t * size_of t ≡ 4096)
size_bounds =
    at_sizes
      (λ s. (16 ≤ s) × (s / 4 * 4 ≡ s) × (2 ≤ 4096 / s) × (4096 / s ≤ 256) × (4096 / s * s ≡ 4096))
      (omega arith)

-- A block lies in its page.
pub block_end : (t : ℕ) → t < 8 → (j : ℕ) → j < 4096 / size_of t → j * size_of t + size_of t ≤ 4096
block_end =
    at_sizes (λ s. (j : ℕ) → j < 4096 / s → j * s + s ≤ 4096)
      (
        (λ j h. omega arith),
        (λ j h. omega arith),
        (λ j h. omega arith),
        (λ j h. omega arith),
        (λ j h. omega arith),
        (λ j h. omega arith),
        (λ j h. omega arith),
        (λ j h. omega arith),
      )

-- Blocks of one size that begin at a place of the same block are the same.
pub block_apart :
    (t : ℕ) → t < 8 → (i j d : ℕ) → d < size_of t → i * size_of t + d ≡ j * size_of t → i ≡ j
block_apart =
    at_sizes (λ s. (i j d : ℕ) → d < s → i * s + d ≡ j * s → i ≡ j)
      (
        (λ i j d h e. omega arith),
        (λ i j d h e. omega arith),
        (λ i j d h e. omega arith),
        (λ i j d h e. omega arith),
        (λ i j d h e. omega arith),
        (λ i j d h e. omega arith),
        (λ i j d h e. omega arith),
        (λ i j d h e. omega arith),
      )

-- An aligned offset in the page is that of a block.
pub block_index :
    (t : ℕ)
    → t < 8
    → (o : ℕ) → o < 4096
    → o % size_of t ≡ 0
    → (o / size_of t * size_of t ≡ o) × (o / size_of t < 4096 / size_of t)
block_index =
    at_sizes (λ s. (o : ℕ) → o < 4096 → o % s ≡ 0 → (o / s * s ≡ o) × (o / s < 4096 / s))
      (
        (λ o h e. omega arith),
        (λ o h e. omega arith),
        (λ o h e. omega arith),
        (λ o h e. omega arith),
        (λ o h e. omega arith),
        (λ o h e. omega arith),
        (λ o h e. omega arith),
        (λ o h e. omega arith),
      )

pub block_aligned : (t : ℕ) → t < 8 → (j : ℕ) → j * size_of t % size_of t ≡ 0
block_aligned =
    at_sizes (λ s. (j : ℕ) → j * s % s ≡ 0)
      (
        (λ j. omega arith),
        (λ j. omega arith),
        (λ j. omega arith),
        (λ j. omega arith),
        (λ j. omega arith),
        (λ j. omega arith),
        (λ j. omega arith),
        (λ j. omega arith),
      )

-- `blocktype` gives the first size that is enough, if there is one.
blocktype_from_lem :
    (sz : ℕ) (xs : List ℕ) (i m : ℕ) {s : ℕ}
    → get_elem? xs m ≡ some s
    → sz ≤ s
    → (t : ℕ) × (blocktype_from sz xs i ≡ some (i + t))
      × (found : ℕ) × (get_elem? xs t ≡ some found)
      × (sz ≤ found)
      × ((u less : ℕ) → u < t → get_elem? xs u ≡ some less → less < sz)
unfolding blocktype_from
blocktype_from_lem sz [] i m e h = cc
blocktype_from_lem sz (x ∷ xs) i zero e h =
    (0, ground arith, x, refl, ground arith, λ u less lt. absurd (omega arith))
blocktype_from_lem sz (x ∷ xs) i (suc m) e h = elim (Bool-cases (leb sz x)) [
  | inl fits ↦
      rw fits
        (0, ap some (omega arith), x, refl, leb→le sz x fits, λ u less lt. absurd (omega arith))
  | inr small ↦
      let (t, runs, found, at, enough, first) = blocktype_from_lem sz xs (i + 1) m e h in
      rw small (
        suc t,
        runs ∙ ap some (omega arith),
        found,
        at,
        enough,
        (λ u less lt here. earlier small t first u less lt here),
      )
]
  where
    earlier :
        leb sz x ≡ false
        → (t : ℕ) → ((u less : ℕ) → u < t → get_elem? xs u ≡ some less → less < sz)
        → (u less : ℕ) → u < suc t
        → get_elem? (x ∷ xs) u ≡ some less
        → less < sz
    earlier small t first zero less lt here = ground (arith)
    earlier small t first (suc u) less lt here = first u less (omega arith) here

size_of_at : (t s : ℕ) → get_elem? sizes t ≡ some s → size_of t ≡ s
unfolding size_of
size_of_at t s e = rw e refl

in_sizes : (t s : ℕ) → get_elem? sizes t ≡ some s → t < 8
in_sizes t s e = ground (arith, get_elem?-none sizes t)

-- A request of at most 2048 bytes gets the first block type whose size is enough.
pub blocktype_lem :
    (sz : ℕ)
    → sz ≤ 2048
    → (t : ℕ) × (blocktype sz ≡ some t)
      × (t < 8)
      × (sz ≤ size_of t)
      × ((u : ℕ) → u < t → size_of u < sz)
unfolding blocktype
blocktype_lem sz h =
    let (t, runs, found, at, enough, first) = blocktype_from_lem sz sizes 0 7 refl h in
    (
      t,
      runs ∙ ap some (omega arith),
      in_sizes t found at,
      omega (arith, size_of_at t found at),
      λ u lt.
          let (s, here) = get_elem?-some sizes u (omega (arith, in_sizes t found at)) in
          omega (arith, size_of_at u s here, first u s lt here),
    )
