-- ===== src/Number/Tests.antt =====
-- "-42" at address 0, and "42" at address 1.
use harvard_os161_operating.Prelude.{
  ◌-◌, ◌%◌, ◌^◌, ◌≡◌, refl, none, some, [], ◌∷◌, arith, ◌==◌, if◌then◌else◌,
}
use harvard_os161_operating.Memory.{Memory}
use harvard_os161_operating.Number.{digits, digit_at, skip_blanks, digits_from, atoi}
use harvard_os161_operating.Number.Decimal.{Reads, stops, digit, value, atoi_plain}

abbrev text : Memory
text a = if a == 0 then 45 else if a == 1 then 52 else if a == 2 then 50 else 0

with_sign : atoi 9 text 0 ≡ some (2 ^ 32 - 42)
unfolding atoi skip_blanks digits_from digit_at
with_sign = refl

no_digit : digit_at digits 0 (text 3) ≡ none
unfolding digit_at
no_digit = refl

forty_two : Reads text 1 (4 ∷ 2 ∷ [])
forty_two = digit (omega arith) refl (digit (omega arith) refl (stops no_digit))

atoi_plain_example : atoi 4 text 1 ≡ some (value 0 (4 ∷ 2 ∷ []) % 2 ^ 32)
atoi_plain_example = atoi_plain 4 text 1 4 (2 ∷ []) (omega arith) forty_two
