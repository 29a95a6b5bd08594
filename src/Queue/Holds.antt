-- ===== src/Queue/Holds.antt =====
-- What a queue of kern/lib/queue.c holds, and its positions modulo the size.
use native.Mathlib.Nat.{mod-add-mod, mod-eq_of_lt, mod-eq-sub-mod}
use harvard_os161_operating.Prelude.{
  ℕ, suc, ◌+◌, ◌-◌, ◌%◌, ◌^◌, ◌≤◌, ◌<◌, ◌≡◌, ap, ◌≢◌, ◌⊎◌, inl, inr, Option, List, arith, dec_lt,
  length, get_elem?,
}
use harvard_os161_operating.Queue.{Queue}

-- The queue holds `xs`, oldest first: the cells from `nextread` on, going round at `size`.
pub record Holds (q : Queue) (xs : List (Option ℕ)) : Type 0 where
  pub room : length xs < q.size
  pub small : q.size < 2 ^ 30
  pub block : length q.cells ≡ q.size
  pub reads : q.nextread < q.size
  pub writes : q.nextwrite ≡ (q.nextread + length xs) % q.size
  pub at : (k : ℕ) → k < length xs → get_elem? q.cells ((q.nextread + k) % q.size) ≡ get_elem? xs k

-- A position is reduced at most once.
pub position_cases :
    (n s i : ℕ)
    → s < n
    → i ≤ n
    → ((s + i) % n ≡ s + i) × (s + i < n) ⊎ ((s + i) % n ≡ s + i - n) × (n ≤ s + i)
position_cases n s i hs hi = elim (dec_lt (s + i) n) [
  | yes below ↦ inl (mod-eq_of_lt below, below)
  | no above ↦ inr (
    omega (
      arith,
      mod-eq-sub-mod {n = s + i} {m = n} (omega arith),
      mod-eq_of_lt {n = s + i - n} {m = n} (omega arith),
    ),
    omega arith,
  )
]

-- Fewer than `n` steps apart, two positions differ.
pub position_ne : (n s i j : ℕ) → s < n → i < j → j < n → (s + i) % n ≢ (s + j) % n
position_ne n s i j hs hij hj =
    omega (arith, position_cases n s i hs (omega arith), position_cases n s j hs (omega arith))

pub position_step : (n s i : ℕ) → 0 < n → (s + suc i) % n ≡ ((s + 1) % n + i) % n
position_step n s i h = rw mod-add-mod (ap (λ k. k % n) (omega arith))

pub step_position : (n s i : ℕ) → 0 < n → ((s + i) % n + 1) % n ≡ (s + suc i) % n
step_position n s i h = rw mod-add-mod (ap (λ k. k % n) (omega arith))
