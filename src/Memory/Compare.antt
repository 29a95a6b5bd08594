-- ===== src/Memory/Compare.antt =====
-- memcmp.c of lib/libc.
use mathlib.Core.Path.{subst}
use harvard_os161_operating.Prelude.{
  ℕ, zero, suc, ◌+◌, ◌≤◌, ◌<◌, ◌≡◌, ◌≢◌, arith, ℕ_discrete, eq→==, ne→==,
}
use harvard_os161_operating.Memory.{Difference, equal, differ, Memory, compare_from, memcmp}

-- The blocks agree from byte `i` up to byte `k`, and differ there.
pub record FirstAt (m : Memory) (a b i n k : ℕ) : Type 0 where
  pub from : i ≤ k
  pub below : k < i + n
  pub same : (j : ℕ) → i ≤ j → j < k → m (a + j) ≡ m (b + j)
  pub differs : m (a + k) ≢ m (b + k)

-- What a comparison says of the bytes `i .. i + n - 1`.
pub data Compared (m : Memory) (a b i n : ℕ) : Difference → Type 0 where
  agree : ((j : ℕ) → i ≤ j → j < i + n → m (a + j) ≡ m (b + j)) → Compared m a b i n equal
  disagree : (k : ℕ) → FirstAt m a b i n k → Compared m a b i n (differ (m (a + k)) (m (b + k)))

module _ (m : Memory) (a b : ℕ) where
  -- Bytes that agree at `i` and behind it.
  extend :
      {i k : ℕ}
      → m (a + i) ≡ m (b + i)
      → ((j : ℕ) → i + 1 ≤ j → j < k → m (a + j) ≡ m (b + j))
      → (j : ℕ) → i ≤ j
      → j < k
      → m (a + j) ≡ m (b + j)
  extend {i} e f j lo hi = elim (ℕ_discrete i j) [
    | yes here ↦ subst (λ x. m (a + x) ≡ m (b + x)) here e
    | no on ↦ f j (omega arith) hi
  ]

  later :
      {i n : ℕ} {r : Difference}
      → m (a + i) ≡ m (b + i)
      → Compared m a b (i + 1) n r
      → Compared m a b i (suc n) r
  later e (agree f) = agree (λ j lo hi. extend e f j lo (omega arith))
  later e (disagree k f) = disagree k (record {
    from = omega (arith, f.from);
    below = omega (arith, f.below);
    same = extend e f.same;
    differs = f.differs;
  })

  compare_from-Compared : (n i : ℕ) → Compared m a b i n (compare_from n i m a b)
  unfolding compare_from
  compare_from-Compared zero i = agree (λ j lo hi. absurd (omega arith))
  compare_from-Compared (suc n) i = elim (ℕ_discrete (m (a + i)) (m (b + i))) [
    | yes e ↦ rw (eq→== _ _ e) (later e (compare_from-Compared n (i + 1)))
    | no ne ↦ rw (ne→== _ _ ne) (
        disagree i (record {
          from = omega arith;
          below = omega arith;
          same = λ j lo hi. absurd (omega arith);
          differs = ne;
        }))
  ]

-- `memcmp` returns 0 when the blocks agree, and else the difference of the first two bytes that
-- differ.
pub memcmp-Compared : (m : Memory) (a b len : ℕ) → Compared m a b 0 len (memcmp m a b len)
unfolding memcmp
memcmp-Compared m a b len = compare_from-Compared m a b len 0
