-- ===== src/Number.antt =====
-- ece344/os161/lib/libc/atoi.c: the decimal number that a string begins with.
-- An `int` is kept modulo 2 ^ 32. The loops over the string are on fuel.
pub mod Decimal
mod Tests
use harvard_os161_operating.Prelude.{
  ◌>>=◌, ◌>>◌, u32_mod, ℕ, zero, suc, ◌+◌, ◌-◌, ◌*◌, ◌%◌, ◌||◌, Option, none, some, List, [], ◌∷◌,
  ◌==◌, if◌then◌else◌,
}
use harvard_os161_operating.Memory.{Memory}

-- `digits`, the legal digits in order.
abbrev pub digits : List ℕ
digits = 48 ∷ 49 ∷ 50 ∷ 51 ∷ 52 ∷ 53 ∷ 54 ∷ 55 ∷ 56 ∷ 57 ∷ []

-- `where - digits` after `where = strchr(digits, c)`, for a character that is not 0; `none` for
-- NULL.
pub digit_at : List ℕ → ℕ → ℕ → Option ℕ
digit_at [] i c = none
digit_at (d ∷ ds) i c = let rest = digit_at ds (i + 1) c in if d == c then some i else rest

-- `while (*s==' ' || *s=='\t') s++;`
pub skip_blanks : ℕ → Memory → ℕ → Option ℕ
skip_blanks zero m s = none
skip_blanks (suc fuel) m s =
    let rest = skip_blanks fuel m (s + 1) in if m s == 32 || m s == 9 then rest else some s

-- `while (*s)`, up to the first character that is no digit.
pub digits_from : ℕ → Memory → ℕ → ℕ → Option ℕ
digits_from zero m s val = none
digits_from (suc fuel) m s val = elim (digit_at digits 0 (m s)) [
  | none ↦ some val
  | some digit ↦
      if m s == 0 then some val else digits_from fuel m (s + 1) ((val * 10 + digit) % u32_mod)
]

pub atoi : ℕ → Memory → ℕ → Option ℕ
atoi fuel m s = do
  s' ← skip_blanks fuel m s
  let neg = m s' == 45
  val ← digits_from fuel m (if neg || m s' == 43 then s' + 1 else s') 0
  some (if neg then (u32_mod - val) % u32_mod else val)
