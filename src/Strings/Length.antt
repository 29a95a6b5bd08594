-- ===== src/Strings/Length.antt =====
-- strlen.c of lib/libc, and what a string is.
use harvard_os161_operating.Prelude.{
  ℕ, zero, suc, ◌+◌, ◌≤◌, ◌<◌, ◌≡◌, refl, ◌≢◌, some, arith, ℕ_discrete, eq→==, ne→==,
}
use harvard_os161_operating.Memory.{Memory}
use harvard_os161_operating.Strings.{strlen_from, strlen}

-- A string of `n` characters: no zero among them, and a zero behind them.
pub record IsString (m : Memory) (s n : ℕ) : Type 0 where
  pub chars : (k : ℕ) → k < n → m (s + k) ≢ 0
  pub ends : m (s + n) ≡ 0

strlen_from_lem :
    (fuel : ℕ) {m : Memory} {s n : ℕ} (ret : ℕ)
    → IsString m s n
    → ret ≤ n
    → n < ret + fuel
    → strlen_from fuel m s ret ≡ some n
unfolding strlen_from
strlen_from_lem zero ret str le enough = absurd (omega arith)
strlen_from_lem (suc fuel) {m} {s} {n} ret str le enough = elim (ℕ_discrete ret n) [
  | yes at_end ↦ rw (at_end, eq→== (m (s + n)) 0 str.ends) refl
  | no before ↦
      rw (ne→== (m (s + ret)) 0 (str.chars ret (omega arith)))
        (strlen_from_lem fuel (ret + 1) str (omega arith) (omega arith))
]

-- `strlen` counts the characters before the zero; it needs one round more than that.
pub strlen_lem :
    (fuel : ℕ) {m : Memory} {s n : ℕ} → IsString m s n → n < fuel → strlen fuel m s ≡ some n
unfolding strlen
strlen_lem fuel str enough = strlen_from_lem fuel 0 str (omega arith) (omega arith)
