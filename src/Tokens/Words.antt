-- ===== src/Tokens/Words.antt =====
-- The words that `strtok_r` of lib/libc/strtok_r.c finds.
use mathlib.Core.Path.{subst}
use harvard_os161_operating.Prelude.{
  ◌>>=◌, ℕ, zero, suc, ◌+◌, ◌≤◌, ◌<◌, ◌≡◌, refl, sym, ap, ◌∙◌, ◌≢◌, Bool, true, false, Option, none,
  some, arith, ℕ_discrete, eq→==, ne→==,
}
use harvard_os161_operating.Memory.{Memory}
use harvard_os161_operating.Strings.{as_int}
use harvard_os161_operating.Strings.Length.{IsString}
use harvard_os161_operating.Strings.Search.{First, first, nowhere, strchr-First}
use harvard_os161_operating.Tokens.{is_sep, skip_seps, skip_word}

-- The character is one of the `k` at `seps`.
abbrev pub IsSep : Memory → ℕ → ℕ → ℕ → Type 0
IsSep m seps k c = (j : ℕ) × (j < k) × (as_int (m (seps + j)) ≡ as_int c)

-- How the test of a character ends.
pub data Tested (m : Memory) (seps k c : ℕ) : Option Bool → Type 0 where
  among : IsSep m seps k c → Tested m seps k c (some true)
  outside : ¬ IsSep m seps k c → Tested m seps k c (some false)

as_int-zero : (c : ℕ) → as_int c ≡ 0 → c ≡ 0
unfolding as_int
as_int-zero c e = ground arith

pub is_sep-Tested :
    (fuel : ℕ) {m : Memory} {seps k : ℕ} (c : ℕ)
    → IsString m seps k
    → k < fuel
    → c ≢ 0
    → Tested m seps k c (is_sep fuel m seps c)
unfolding is_sep as_int
is_sep-Tested fuel {m} {seps} {k} c str enough some_char =
    let (r, runs, found) = strchr-First fuel k (as_int c) str enough in rw runs (go r found)
  where
    go :
        (r : Option ℕ)
        → First m seps k (as_int c) r
        → Tested m seps k c (some (elim r [ none ↦ false | some p ↦ true ]))
    go _ (first j le e before) = elim (ℕ_discrete j k) [
      | yes at_end ↦
          let zero_here : m (seps + j) ≡ 0 = ap (λ x. m (seps + x)) at_end ∙ str.ends in
          absurd (some_char (as_int-zero c (sym e ∙ ap as_int zero_here)))
      | no other ↦ among (j, omega (arith, le, other), e)
    ]
    go _ (nowhere none_there) = outside (λ (j, lt, e). none_there j (omega (arith, lt)) e)

-- All characters from `a` up to `b` of the string at `s` are separators, or none is.
abbrev pub AllSeps : Memory → ℕ → ℕ → ℕ → ℕ → ℕ → Type 0
AllSeps m seps k s a b = (j : ℕ) → a ≤ j → j < b → IsSep m seps k (m (s + j))

abbrev pub NoSeps : Memory → ℕ → ℕ → ℕ → ℕ → ℕ → Type 0
NoSeps m seps k s a b = (j : ℕ) → a ≤ j → j < b → ¬ IsSep m seps k (m (s + j))

AllSeps-next :
    (m : Memory) (seps k s a b : ℕ)
    → IsSep m seps k (m (s + a))
    → AllSeps m seps k s (a + 1) b
    → AllSeps m seps k s a b
AllSeps-next m seps k s a b here rest j lo hi = elim (ℕ_discrete a j) [
  | yes e ↦ subst (λ x. IsSep m seps k (m (s + x))) e here
  | no ne ↦ rest j (omega arith) hi
]

NoSeps-next :
    (m : Memory) (seps k s a b : ℕ)
    → ¬ IsSep m seps k (m (s + a))
    → NoSeps m seps k s (a + 1) b
    → NoSeps m seps k s a b
NoSeps-next m seps k s a b here rest j lo hi = elim (ℕ_discrete a j) [
  | yes e ↦ subst (λ x. ¬ IsSep m seps k (m (s + x))) e here
  | no ne ↦ rest j (omega arith) hi
]

-- Where `skip_seps` stops: at the end of the string, or before a character that is no separator.
pub record Skipped (m : Memory) (seps k s n a : ℕ) (o : Option ℕ) : Type 0 where
  pub stop : ℕ
  pub runs : o ≡ some (s + stop)
  pub after : a ≤ stop
  pub inside : stop ≤ n
  pub seps_before : AllSeps m seps k s a stop
  pub none_here : stop < n → ¬ IsSep m seps k (m (s + stop))

-- Where `skip_word` stops: at the end of the string, or before a separator.
pub record Passed (m : Memory) (seps k s n a : ℕ) (o : Option ℕ) : Type 0 where
  pub stop : ℕ
  pub runs : o ≡ some (s + stop)
  pub after : a ≤ stop
  pub inside : stop ≤ n
  pub word_before : NoSeps m seps k s a stop
  pub sep_here : stop < n → IsSep m seps k (m (s + stop))

module _ (fuel : ℕ) {m : Memory} {seps k s n : ℕ} (sep_str : IsString m seps k) (enough : k < fuel)
    (str : IsString m s n) where
  pub skip_seps-Skipped :
      (rounds a : ℕ)
      → a ≤ n
      → n < a + rounds
      → Skipped m seps k s n a (skip_seps rounds fuel m seps (s + a))
  unfolding skip_seps
  skip_seps-Skipped zero a le more = absurd (omega arith)
  skip_seps-Skipped (suc rounds) a le more = elim (ℕ_discrete a n) [
    | yes at_end ↦
        let ends : m (s + a) ≡ 0 = ap (λ x. m (s + x)) at_end ∙ str.ends in
        rw (skip_seps, eq→== (m (s + a)) 0 ends)
          (record {
            stop = a;
            runs = refl;
            after = omega arith;
            inside = le;
            seps_before = λ j lo hi. absurd (omega arith);
            none_here = λ lt. absurd (omega (arith, at_end));
          })
    | no before ↦
        let char : m (s + a) ≢ 0 = str.chars a (omega (arith, before)) in
        rw (skip_seps, ne→== (m (s + a)) 0 char)
          (go (is_sep fuel m seps (m (s + a))) (is_sep-Tested fuel (m (s + a)) sep_str enough char)
            before (λ lt. skip_seps-Skipped rounds (a + 1) lt (omega arith)))
  ]
    where
      go :
          (o : Option Bool)
          → Tested m seps k (m (s + a)) o
          → a ≢ n
          → (a + 1 ≤ n → Skipped m seps k s n (a + 1) (skip_seps rounds fuel m seps (s + (a + 1))))
          → Skipped m seps k s n a (
              o >>= λ sep. elim sep [
                | true ↦ skip_seps rounds fuel m seps (s + a + 1)
                | false ↦ some (s + a)
              ])
      go _ (among here) before later =
          let next : s + a + 1 ≡ s + (a + 1) = omega arith in
          let r = later (omega (arith, le, before)) in
          record {
            stop = r.stop;
            runs = ap (skip_seps rounds fuel m seps) next ∙ r.runs;
            after = omega (arith, r.after);
            inside = r.inside;
            seps_before = AllSeps-next m seps k s a r.stop here r.seps_before;
            none_here = r.none_here;
          }
      go _ (outside not_here) before later = record {
        stop = a;
        runs = refl;
        after = omega arith;
        inside = le;
        seps_before = λ j lo hi. absurd (omega arith);
        none_here = λ lt. not_here;
      }

  pub skip_word-Passed :
      (rounds a : ℕ)
      → a ≤ n
      → n < a + rounds
      → Passed m seps k s n a (skip_word rounds fuel m seps (s + a))
  unfolding skip_word
  skip_word-Passed zero a le more = absurd (omega arith)
  skip_word-Passed (suc rounds) a le more = elim (ℕ_discrete a n) [
    | yes at_end ↦
        let ends : m (s + a) ≡ 0 = ap (λ x. m (s + x)) at_end ∙ str.ends in
        rw (skip_word, eq→== (m (s + a)) 0 ends)
          (record {
            stop = a;
            runs = refl;
            after = omega arith;
            inside = le;
            word_before = λ j lo hi. absurd (omega arith);
            sep_here = λ lt. absurd (omega (arith, at_end));
          })
    | no before ↦
        let char : m (s + a) ≢ 0 = str.chars a (omega (arith, before)) in
        rw (skip_word, ne→== (m (s + a)) 0 char)
          (go (is_sep fuel m seps (m (s + a))) (is_sep-Tested fuel (m (s + a)) sep_str enough char)
            before (λ lt. skip_word-Passed rounds (a + 1) lt (omega arith)))
  ]
    where
      go :
          (o : Option Bool)
          → Tested m seps k (m (s + a)) o
          → a ≢ n
          → (a + 1 ≤ n → Passed m seps k s n (a + 1) (skip_word rounds fuel m seps (s + (a + 1))))
          → Passed m seps k s n a (
              o >>= λ sep. elim sep [
                | true ↦ some (s + a)
                | false ↦ skip_word rounds fuel m seps (s + a + 1)
              ])
      go _ (outside not_here) before later =
          let next : s + a + 1 ≡ s + (a + 1) = omega arith in
          let r = later (omega (arith, le, before)) in
          record {
            stop = r.stop;
            runs = ap (skip_word rounds fuel m seps) next ∙ r.runs;
            after = omega (arith, r.after);
            inside = r.inside;
            word_before = NoSeps-next m seps k s a r.stop not_here r.word_before;
            sep_here = r.sep_here;
          }
      go _ (among here) before later = record {
        stop = a;
        runs = refl;
        after = omega arith;
        inside = le;
        word_before = λ j lo hi. absurd (omega arith);
        sep_here = λ lt. here;
      }
