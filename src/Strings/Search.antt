-- ===== src/Strings/Search.antt =====
-- strchr.c and strrchr.c of lib/libc.
use mathlib.Core.Path.{subst}
use Prim.Native.Nat.{zero-le}
use harvard_os161_operating.Prelude.{
  ℕ, zero, suc, ◌+◌, ◌-◌, ◌≤◌, ◌<◌, ◌≡◌, refl, ◌≢◌, true, false, Option, none, some, arith, dec_lt,
  ℕ_discrete, ◌==◌, eq→==, ne→==,
}
use harvard_os161_operating.Memory.{Memory}
use harvard_os161_operating.Strings.{as_int, strchr, strrchr_from, strrchr}
use harvard_os161_operating.Strings.Length.{IsString, strlen_lem}

-- What `strchr` returns for a string of `n` characters: the place of the first character that is
-- `ch`, the final zero included, or NULL where none is.
pub data First (m : Memory) (s n ch : ℕ) : Option ℕ → Type 0 where
  first :
      (k : ℕ)
      → k ≤ n
      → as_int (m (s + k)) ≡ ch
      → ((j : ℕ) → j < k → as_int (m (s + j)) ≢ ch)
      → First m s n ch (some (s + k))
  nowhere : ((j : ℕ) → j ≤ n → as_int (m (s + j)) ≢ ch) → First m s n ch none

-- What `strrchr` returns: the place of the last character that is `ch`, or NULL.
pub data Last (m : Memory) (s n ch : ℕ) : Option ℕ → Type 0 where
  last :
      (k : ℕ)
      → k < n
      → as_int (m (s + k)) ≡ ch
      → ((j : ℕ) → k < j → j < n → as_int (m (s + j)) ≢ ch)
      → Last m s n ch (some (s + k))
  missing : ((j : ℕ) → j < n → as_int (m (s + j)) ≢ ch) → Last m s n ch none

strrchr_from-Last : (m : Memory) (s ch n : ℕ) → Last m s n ch (strrchr_from n m s ch)
unfolding strrchr_from
strrchr_from-Last m s ch zero = missing (λ j lt. absurd (omega arith))
strrchr_from-Last m s ch (suc i) = elim (ℕ_discrete (as_int (m (s + i))) ch) [
  | yes e ↦ rw (eq→== _ _ e) (last i (omega arith) e (λ j lo hi. absurd (omega arith)))
  | no ne ↦ rw (ne→== _ _ ne) (widen ne (strrchr_from-Last m s ch i))
]
  where
    widen_at :
        {k : ℕ}
        → as_int (m (s + i)) ≢ ch
        → ((j : ℕ) → k < j → j < i → as_int (m (s + j)) ≢ ch)
        → (j : ℕ) → k < j
        → j < suc i
        → as_int (m (s + j)) ≢ ch
    widen_at ne f j lo hi = elim (dec_lt j i) [
      | yes lt ↦ f j lo lt
      | no ge ↦ subst (λ x. as_int (m (s + x)) ≢ ch) (omega arith) ne
    ]

    widen : {r : Option ℕ} → as_int (m (s + i)) ≢ ch → Last m s i ch r → Last m s (suc i) ch r
    widen ne (last k lt e f) = last k (omega arith) e (widen_at ne f)
    widen ne (missing f) = missing (λ j lt. elim (dec_lt j i) [
      | yes lt' ↦ f j lt'
      | no ge ↦ subst (λ x. as_int (m (s + x)) ≢ ch) (omega arith) ne
    ])

-- `strrchr` returns the last place of the character in the string, its final zero included, or
-- NULL where the string has none.
pub strrchr-Last :
    (fuel : ℕ) {m : Memory} {s n : ℕ} (ch : ℕ)
    → IsString m s n
    → n < fuel
    → (r : Option ℕ) × (strrchr fuel m s ch ≡ some r) × Last m s (n + 1) ch r
unfolding strrchr
strrchr-Last fuel {m} {s} {n} ch str enough = (
  strrchr_from (n + 1) m s ch,
  rw (strlen_lem fuel str enough) refl,
  strrchr_from-Last m s ch (n + 1),
)

-- A character that does not stand at `s` nor in the places behind it.
absent :
    (m : Memory) (s n ch : ℕ)
    → as_int (m s) ≢ ch
    → ((j : ℕ) → j < n → as_int (m (s + 1 + j)) ≢ ch)
    → (j : ℕ) → j < suc n
    → as_int (m (s + j)) ≢ ch
absent m s n ch ne f zero lt = subst (λ x. as_int (m x) ≢ ch) (omega arith) ne
absent m s n ch ne f (suc j) lt = subst (λ x. as_int (m x) ≢ ch) (omega arith) (f j (omega arith))

-- The places of a string after its first character.
shift :
    {m : Memory} {s n ch : ℕ} {r : Option ℕ}
    → as_int (m s) ≢ ch
    → First m (s + 1) n ch r
    → First m s (suc n) ch r
shift {m} {s} {n} {ch} ne (first k le e f) =
    subst (λ x. First m s (suc n) ch (some x)) (omega arith)
      (first (suc k) (omega arith) (subst (λ x. as_int (m x) ≡ ch) (omega arith) e)
        (absent m s k ch ne f))
shift {m} {s} {n} {ch} ne (nowhere f) =
    nowhere (λ j le. absent m s (suc n) ch ne (λ i lt. f i (omega arith)) j (omega arith))

rest-IsString : {m : Memory} {s n : ℕ} → IsString m s n → 0 < n → IsString m (s + 1) (n - 1)
rest-IsString {m} {s} {n} str h = record {
  chars = λ k lt. subst (λ x. m x ≢ 0) (omega arith) (str.chars (suc k) (omega arith));
  ends = subst (λ x. m x ≡ 0) (omega arith) str.ends;
}

ends : {m : Memory} {s n : ℕ} → IsString m s n → n ≡ 0 → m s ≡ 0
ends {m} str z = subst (λ x. m x ≡ 0) (omega arith) str.ends

starts : {m : Memory} {s n : ℕ} → IsString m s n → n ≢ 0 → m s ≢ 0
starts {m} str more = subst (λ x. m x ≢ 0) (omega arith) (str.chars 0 (omega arith))

at_once : {m : Memory} {s n ch : ℕ} → as_int (m s) ≡ ch → First m s n ch (some s)
at_once {m} {s} {n} {ch} e =
    subst (λ x. First m s n ch (some x)) (omega arith)
      (first 0 zero-le (subst (λ x. as_int (m x) ≡ ch) (omega arith) e)
        (λ j lt. absurd (omega arith)))

-- `strchr` returns the first place of the character in the string, its final zero included, or
-- NULL where the string has none; it needs one round more than the string has characters.
pub strchr-First :
    (fuel : ℕ) {m : Memory} {s : ℕ} (n ch : ℕ)
    → IsString m s n
    → n < fuel
    → (r : Option ℕ) × (strchr fuel m s ch ≡ some r) × First m s n ch r
unfolding strchr
strchr-First zero n ch str enough = absurd (omega arith)
strchr-First (suc fuel) {m} {s} n ch str enough = elim (ℕ_discrete n 0) [
  | yes z ↦
      let stop : (m s == 0) ≡ true = eq→== (m s) 0 (ends str z) in
      elim (ℕ_discrete (as_int (m s)) ch) [
        | yes e ↦ (some s, rw (stop, eq→== _ _ e) refl, at_once e)
        | no ne ↦ (
          none,
          rw (stop, ne→== _ _ ne) refl,
          nowhere (λ j le. subst (λ x. as_int (m x) ≢ ch) (omega arith) ne),
        )
      ]
  | no more ↦
      let go : (m s == 0) ≡ false = ne→== (m s) 0 (starts str more) in
      elim (ℕ_discrete (as_int (m s)) ch) [
        | yes e ↦ (some s, rw (go, eq→== _ _ e) refl, at_once e)
        | no ne ↦
            let (r, runs, found) =
              strchr-First fuel {s = s + 1} (n - 1) ch (rest-IsString str (omega arith))
                (omega arith) in
            (
              r,
              rw (go, ne→== _ _ ne) runs,
              subst (λ x. First m s x ch r) (omega arith) (shift ne found),
            )
      ]
]
