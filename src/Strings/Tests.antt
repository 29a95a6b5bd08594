-- ===== src/Strings/Tests.antt =====
-- Runs of the string functions of lib/libc, and the theorems at concrete inputs.
use harvard_os161_operating.Prelude.{◌≡◌, refl, ◌||◌, some, arith, ◌==◌, if◌then◌else◌}
use harvard_os161_operating.Memory.{Memory}
use harvard_os161_operating.Strings.{
  Sign, minus_one, strlen_from, strlen, as_int, strrchr_from, strrchr, char_gt, char_sign,
  strcmp_from, strcmp,
}
use harvard_os161_operating.Strings.Length.{IsString, strlen_lem}
use harvard_os161_operating.Strings.Order.{Ordered, strcmp-Ordered}

-- "aba" at 0 and "ab" at 40.
abbrev text : Memory
text a = if a == 0 || a == 2 || a == 40 then 97 else if a == 1 || a == 41 then 98 else 0

aba : IsString text 0 3
aba = record { chars = λ k lt. ground arith; ends = refl }

ab : IsString text 40 2
ab = record { chars = λ k lt. ground arith; ends = refl }

last_a : strrchr 9 text 0 97 ≡ some (some 2)
unfolding strrchr strlen strlen_from strrchr_from as_int
last_a = refl

shorter_is_less : strcmp 9 text 40 0 ≡ some minus_one
unfolding strcmp strcmp_from char_sign char_gt
shorter_is_less = refl

strlen_lem_example : strlen 4 text 0 ≡ some 3
strlen_lem_example = strlen_lem 4 aba (omega arith)

strcmp-Ordered_example : (r : Sign) × (strcmp 5 text 0 40 ≡ some r) × Ordered text 0 40 3 r
strcmp-Ordered_example = strcmp-Ordered 5 40 aba (omega arith)
