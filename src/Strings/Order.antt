-- ===== src/Strings/Order.antt =====
-- strcmp.c of lib/libc.
use mathlib.Core.Path.{subst}
use Prim.Native.Nat.{zero-le}
use harvard_os161_operating.Prelude.{
  ℕ, zero, suc, ◌+◌, ◌≤◌, ◌<◌, ◌≡◌, sym, ap, ◌≢◌, some, arith, ℕ_discrete, if◌then◌else◌, eq→==,
  ne→==,
}
use harvard_os161_operating.Memory.{Memory}
use harvard_os161_operating.Strings.{
  Sign, minus_one, nought, one, char_gt, char_sign, strcmp_from, strcmp,
}
use harvard_os161_operating.Strings.Length.{IsString}

-- The strings agree on all characters up to place `i`.
abbrev pub AgreeTo : Memory → ℕ → ℕ → ℕ → Type 0
AgreeTo m a b i = (j : ℕ) → j < i → m (a + j) ≡ m (b + j)

-- What `strcmp` returns: 0 for the same characters, and else the order of the first two characters
-- that differ, one of which may be the final zero.
pub data Ordered (m : Memory) (a b n : ℕ) : Sign → Type 0 where
  same : AgreeTo m a b (n + 1) → Ordered m a b n nought
  other :
      (k : ℕ)
      → k ≤ n
      → AgreeTo m a b k
      → m (a + k) ≢ m (b + k)
      → Ordered m a b n (if char_gt (m (a + k)) (m (b + k)) then one else minus_one)

agree_further :
    (m : Memory) (a b i : ℕ) → AgreeTo m a b i → m (a + i) ≡ m (b + i) → AgreeTo m a b (i + 1)
agree_further m a b i f e j lt = elim (ℕ_discrete i j) [
  | yes here ↦ subst (λ x. m (a + x) ≡ m (b + x)) here e
  | no before ↦ f j (omega arith)
]

char_sign-same : (x y : ℕ) → x ≡ y → char_sign x y ≡ nought
unfolding char_sign char_gt
char_sign-same x y e = ground arith

strcmp_from-Ordered :
    (fuel : ℕ) {m : Memory} {a n : ℕ} (b i : ℕ)
    → IsString m a n
    → i ≤ n
    → n < i + fuel
    → AgreeTo m a b i
    → (r : Sign) × (strcmp_from fuel m a b i ≡ some r) × Ordered m a b n r
unfolding strcmp_from char_sign
strcmp_from-Ordered zero b i str le enough so_far = absurd (omega arith)
strcmp_from-Ordered (suc fuel) {m} {a} {n} b i str le enough so_far =
    elim (ℕ_discrete (m (a + i)) (m (b + i))) [
      | no ne ↦ (_, rw (ne→== _ _ ne) (ground arith), other i le so_far ne)
      | yes e ↦
          let next : AgreeTo m a b (i + 1) = agree_further m a b i so_far e in
          elim (ℕ_discrete i n) [
            | yes at_end ↦
                let zero_here : m (a + i) ≡ 0 = subst (λ x. m (a + x) ≡ 0) (sym at_end) str.ends in
                (
                  nought,
                  rw (eq→== (m (a + i)) 0 zero_here) (ap some (char_sign-same _ _ e)),
                  same (subst (λ x. AgreeTo m a b (x + 1)) at_end next),
                )
            | no before ↦
                let (r, runs, ordered) =
                  strcmp_from-Ordered fuel b (i + 1) str (omega arith) (omega arith) next in
                (r, rw (ne→== (m (a + i)) 0 (str.chars i (omega arith)), eq→== _ _ e) runs, ordered)
          ]
    ]

-- `strcmp` returns 0 if the strings have the same characters up to the first one's final zero, and
-- else the order of the first two characters that differ; it needs
-- one round more than the first string has characters.
pub strcmp-Ordered :
    (fuel : ℕ) {m : Memory} {a n : ℕ} (b : ℕ)
    → IsString m a n
    → n < fuel
    → (r : Sign) × (strcmp fuel m a b ≡ some r) × Ordered m a b n r
unfolding strcmp
strcmp-Ordered fuel b str enough =
    strcmp_from-Ordered fuel b 0 str zero-le (omega arith) (λ j lt. absurd (omega arith))
