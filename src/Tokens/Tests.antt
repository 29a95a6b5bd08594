-- ===== src/Tokens/Tests.antt =====
-- The words of " ab c" between blanks.
use harvard_os161_operating.Prelude.{ℕ, ◌≡◌, refl, Option, none, some, arith, ◌==◌, if◌then◌else◌}
use harvard_os161_operating.Memory.{Memory}
use harvard_os161_operating.Strings.{as_int, strchr}
use harvard_os161_operating.Strings.Length.{IsString}
use harvard_os161_operating.Tokens.{
  is_sep, skip_seps, skip_word, take_word, next_word, set_context, strtok_r,
}
use harvard_os161_operating.Tokens.Next.{Word, strtok_r-Word}

-- The text stands at 10, and the blank that separates at 40.
abbrev text : Memory
text a =
    if a == 10
    then 32
    else if a == 11
    then 97
    else if a == 12
    then 98
    else if a == 13
    then 32
    else if a == 14
    then 99
    else if a == 40
    then 32
    else 0

blank-IsString : IsString text 40 1
blank-IsString = record { chars = λ k lt. ground arith; ends = refl }

text-IsString : IsString text 10 5
text-IsString = record { chars = λ k lt. ground arith; ends = refl }

strtok_r-Word_example :
    (r : Option ℕ × Memory × Option ℕ) × (strtok_r 9 text (some 10) 40 none ≡ some r)
    × Word text 40 1 10 5 r
unfolding set_context
strtok_r-Word_example =
    strtok_r-Word 9 blank-IsString (omega arith) text-IsString (omega arith) (some 10) none refl

-- "ab" is the first word.
first_word : (m : Memory) × (strtok_r 9 text (some 10) 40 none ≡ some (some 11, m, some 14))
unfolding strtok_r set_context next_word take_word skip_seps skip_word is_sep strchr as_int
first_word = (_, refl)
