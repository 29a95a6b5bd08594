-- ===== src/Tokens.antt =====
-- ece344/os161/lib/libc/strtok_r.c. Loops over strings are on fuel, as in Strings.
pub mod Words
pub mod Next
mod Tests
use harvard_os161_operating.Prelude.{
  ◌>>=◌, ℕ, zero, suc, ◌+◌, Bool, true, false, Option, none, some, ◌==◌, if◌then◌else◌,
}
use harvard_os161_operating.Memory.{Memory, put}
use harvard_os161_operating.Strings.{as_int, strchr}

-- `strchr(seps, c)`, as a condition; a `char` is passed as an `int`.
pub is_sep : ℕ → Memory → ℕ → ℕ → Option Bool
is_sep fuel m seps c =
    strchr fuel m seps (as_int c) >>= λ r. some (elim r [ none ↦ false | some p ↦ true ])

-- `while (*head && strchr(seps, *head)) head++;`
pub skip_seps : ℕ → ℕ → Memory → ℕ → ℕ → Option ℕ
skip_seps zero fuel m seps head = none
skip_seps (suc rounds) fuel m seps head = elim (m head == 0) [
  | true ↦ some head
  | false ↦ is_sep fuel m seps (m head) >>= λ sep. elim sep [
    | true ↦ skip_seps rounds fuel m seps (head + 1)
    | false ↦ some head
  ]
]

-- `while (*tail && !strchr(seps, *tail)) tail++;`
pub skip_word : ℕ → ℕ → Memory → ℕ → ℕ → Option ℕ
skip_word zero fuel m seps tail = none
skip_word (suc rounds) fuel m seps tail = elim (m tail == 0) [
  | true ↦ some tail
  | false ↦ is_sep fuel m seps (m tail) >>= λ sep. elim sep [
    | true ↦ some tail
    | false ↦ skip_word rounds fuel m seps (tail + 1)
  ]
]

-- From "skip over word": the word, memory, and `*context`.
pub take_word : ℕ → Memory → ℕ → ℕ → Option (Option ℕ × Memory × Option ℕ)
take_word fuel m seps head = skip_word fuel fuel m seps head >>= λ tail.
    if m tail == 0
    then some (some head, m, none)
    else some (some head, put 1 m tail 0, some (tail + 1))

-- From "Skip any leading separators".
pub next_word : ℕ → Memory → ℕ → ℕ → Option (Option ℕ × Memory × Option ℕ)
next_word fuel m seps start = skip_seps fuel fuel m seps start >>= λ head.
    if m head == 0 then some (none, m, none) else take_word fuel m seps head

-- `if (string) { *context = string; }`
pub set_context : Option ℕ → Option ℕ → Option ℕ
set_context (some string) context = some string
set_context none context = context

-- `strtok_r`: the word or NULL, memory, and `*context`.
pub strtok_r : ℕ → Memory → Option ℕ → ℕ → Option ℕ → Option (Option ℕ × Memory × Option ℕ)
strtok_r fuel m string seps context = elim (set_context string context) [
  | none ↦ some (none, m, none)
  | some start ↦ next_word fuel m seps start
]
