-- ===== src/Tokens/Next.antt =====
-- `strtok_r` of lib/libc/strtok_r.c returns the words of a string one by one.
use mathlib.Core.Path.{subst}
use harvard_os161_operating.Prelude.{
  ℕ, ◌+◌, ◌-◌, ◌≤◌, ◌<◌, ◌≡◌, refl, sym, ap, ◌∙◌, ◌≢◌, Option, none, some, arith, ℕ_discrete, eq→==,
  ne→==,
}
use harvard_os161_operating.Memory.{Memory, put}
use harvard_os161_operating.Strings.Length.{IsString}
use harvard_os161_operating.Tokens.{skip_seps, take_word, next_word, set_context, strtok_r}
use harvard_os161_operating.Tokens.Words.{
  IsSep, AllSeps, NoSeps, skip_seps-Skipped, skip_word-Passed,
}

-- What a call returns for a string of `n` characters at `s`.
pub data Word (m : Memory) (seps k s n : ℕ) : Option ℕ × Memory × Option ℕ → Type 0 where
  no_word : AllSeps m seps k s 0 n → Word m seps k s n (none, m, none)
  last_word :
      (a : ℕ)
      → a < n
      → AllSeps m seps k s 0 a
      → NoSeps m seps k s a n
      → IsString m (s + a) (n - a)
      → Word m seps k s n (some (s + a), m, none)
  word :
      (a b : ℕ)
      → a < b
      → b < n
      → AllSeps m seps k s 0 a
      → NoSeps m seps k s a b
      → IsSep m seps k (m (s + b))
      → IsString (put 1 m (s + b) 0) (s + a) (b - a)
      → IsString (put 1 m (s + b) 0) (s + b + 1) (n - b - 1)
      → Word m seps k s n (some (s + a), put 1 m (s + b) 0, some (s + b + 1))

suffix-IsString :
    {m : Memory} {s n : ℕ} (a : ℕ) → IsString m s n → a ≤ n → IsString m (s + a) (n - a)
suffix-IsString {m} {s} {n} a str le = record {
  chars = λ i lt. subst (λ x. m x ≢ 0) (omega arith) (str.chars (a + i) (omega arith));
  ends = subst (λ x. m x ≡ 0) (omega arith) str.ends;
}

-- The separator is overwritten: the word ends there, and the rest follows.
word-IsString :
    {m : Memory} {s n : ℕ} (a b : ℕ)
    → IsString m s n
    → a < b
    → b < n
    → IsString (put 1 m (s + b) 0) (s + a) (b - a)
word-IsString {m} {s} {n} a b str lt inside = record {
  chars = λ i h.
      let old : m (s + (a + i)) ≢ 0 = str.chars (a + i) (omega arith) in
      let place : s + a + i ≡ s + (a + i) = omega arith in rw place (ground (arith, h, lt, old));
  ends = ground arith;
}

rest-IsString :
    {m : Memory} {s n : ℕ} (b : ℕ)
    → IsString m s n
    → b < n
    → IsString (put 1 m (s + b) 0) (s + b + 1) (n - b - 1)
rest-IsString {m} {s} {n} b str inside = record {
  chars = λ i h.
      let old : m (s + (b + 1 + i)) ≢ 0 = str.chars (b + 1 + i) (omega arith) in
      let place : s + b + 1 + i ≡ s + (b + 1 + i) = omega arith in
      rw place (ground (arith, h, old));
  ends =
      let place : s + b + 1 + (n - b - 1) ≡ s + n = omega arith in
      rw place (ground (arith, str.ends, inside));
}

module _ (fuel : ℕ) {m : Memory} {seps k s n : ℕ} (sep_str : IsString m seps k) (enough : k < fuel)
    (str : IsString m s n) (rounds : n < fuel) where
  take_word-Word :
      (a : ℕ)
      → a < n
      → AllSeps m seps k s 0 a
      → ¬ IsSep m seps k (m (s + a))
      → (r : Option ℕ × Memory × Option ℕ) × (take_word fuel m seps (s + a) ≡ some r)
        × Word m seps k s n r
  unfolding take_word
  take_word-Word a lt before char =
      let p = skip_word-Passed fuel sep_str enough str fuel a (omega arith) (omega arith) in
      elim (ℕ_discrete p.stop n) [
        | yes at_end ↦
            let ends : m (s + p.stop) ≡ 0 = ap (λ x. m (s + x)) at_end ∙ str.ends in
            (
              (some (s + a), m, none),
              rw (p.runs, eq→== (m (s + p.stop)) 0 ends) refl,
              last_word a lt before (subst (λ b. NoSeps m seps k s a b) at_end p.word_before)
                  (suffix-IsString a str (omega arith)),
            )
        | no other ↦
            let inside : p.stop < n = omega (arith, p.inside, other) in
            let sep = p.sep_here inside in
            let some_chars : a < p.stop = elim (ℕ_discrete a p.stop) [
              | yes e ↦ absurd (char (subst (λ x. IsSep m seps k (m (s + x))) (sym e) sep))
              | no ne ↦ omega (arith, p.after, ne)
            ] in
            (
              (some (s + a), put 1 m (s + p.stop) 0, some (s + p.stop + 1)),
              rw (p.runs, ne→== (m (s + p.stop)) 0 (str.chars p.stop inside)) refl,
              word a p.stop some_chars inside before p.word_before sep
                  (word-IsString a p.stop str some_chars inside) (rest-IsString p.stop str inside),
            )
      ]

  -- `strtok_r` of a string, given or kept from the call before, returns NULL if it has nothing but
  -- separators. Else it returns the first word, the longest part without a separator behind all
  -- leading ones, as a string of its own; the separator behind it is overwritten, nothing else
  -- changes, and what follows is kept for the next call, or NULL at the end of the string. One round
  -- more than there are characters and separators is enough.
  pub strtok_r-Word :
      (string context : Option ℕ)
      → set_context string context ≡ some s
      → (r : Option ℕ × Memory × Option ℕ) × (strtok_r fuel m string seps context ≡ some r)
        × Word m seps k s n r
  unfolding strtok_r next_word
  strtok_r-Word string context start =
      rw (strtok_r, start)
        (let begin : s + 0 ≡ s = omega arith in
          let q = skip_seps-Skipped fuel sep_str enough str fuel 0 (omega arith) (omega arith) in
          let skips : skip_seps fuel fuel m seps s ≡ some (s + q.stop) = rw begin at q.runs in
          elim (ℕ_discrete q.stop n) [
            | yes at_end ↦
                let ends : m (s + q.stop) ≡ 0 = ap (λ x. m (s + x)) at_end ∙ str.ends in
                (
                  (none, m, none),
                  rw (skips, eq→== (m (s + q.stop)) 0 ends) refl,
                  no_word (subst (λ b. AllSeps m seps k s 0 b) at_end q.seps_before),
                )
            | no other ↦
                let inside : q.stop < n = omega (arith, q.inside, other) in
                let (r, takes, w) =
                  take_word-Word q.stop inside q.seps_before (q.none_here inside) in
                (r, rw (skips, ne→== (m (s + q.stop)) 0 (str.chars q.stop inside)) takes, w)
          ])
