-- ===== src/Strings.antt =====
-- ece344/os161/lib/libc/strlen.c, strcpy.c, strcat.c, strchr.c, strrchr.c, strcmp.c.
-- A string is an address; its end is the first zero byte. A loop over a string is on fuel, since
-- nothing bounds it; Strings/Length and the files beside it show which fuel is enough.
pub mod Length
pub mod Copy
pub mod Search
pub mod Order
mod Tests
use harvard_os161_operating.Prelude.{
  ◌>>=◌, u32_mod, ℕ, zero, suc, ◌+◌, ◌-◌, ◌%◌, Bool, ◌&&◌, not, Option, none, some, ltb, ◌==◌,
  if◌then◌else◌,
}
use harvard_os161_operating.Memory.{Memory, put}

-- `while (s[ret]) ret++;`
pub strlen_from : ℕ → Memory → ℕ → ℕ → Option ℕ
strlen_from zero m s ret = none
strlen_from (suc fuel) m s ret =
    let rest = strlen_from fuel m s (ret + 1) in if m (s + ret) == 0 then some ret else rest

pub strlen : ℕ → Memory → ℕ → Option ℕ
strlen fuel m s = strlen_from fuel m s 0

-- `for (i=0; src[i]; i++) dest[i] = src[i]; dest[i] = 0;`
pub strcpy_from : ℕ → Memory → ℕ → ℕ → ℕ → Option Memory
strcpy_from zero m dest src i = none
strcpy_from (suc fuel) m dest src i =
    let rest = strcpy_from fuel (put 1 m (dest + i) (m (src + i))) dest src (i + 1) in
    if m (src + i) == 0 then some (put 1 m (dest + i) 0) else rest

pub strcpy : ℕ → Memory → ℕ → ℕ → Option Memory
strcpy fuel m dest src = strcpy_from fuel m dest src 0

pub strcat : ℕ → Memory → ℕ → ℕ → Option Memory
strcat fuel m dest src = strlen fuel m dest >>= λ offset. strcpy fuel m (dest + offset) src

-- A `char` is signed: as an `int`, which is kept modulo 2 ^ 32.
unfoldable pub as_int : ℕ → ℕ
as_int c = if ltb c 128 then c else c + (u32_mod - 256)

-- `strchr`; NULL is the inner `none`.
unfoldable pub strchr : ℕ → Memory → ℕ → ℕ → Option (Option ℕ)
strchr zero m s ch = none
strchr (suc fuel) m s ch =
    let rest = strchr fuel m (s + 1) ch in
    if m s == 0
    then some (if as_int (m s) == ch then some s else none)
    else if as_int (m s) == ch
    then some (some s)
    else rest

-- `while (i>0) { i--; if (s[i]==ch) return s+i; } return NULL;`
pub strrchr_from : ℕ → Memory → ℕ → ℕ → Option ℕ
strrchr_from zero m s ch = none
strrchr_from (suc i) m s ch =
    let rest = strrchr_from i m s ch in if as_int (m (s + i)) == ch then some (s + i) else rest

pub strrchr : ℕ → Memory → ℕ → ℕ → Option (Option ℕ)
strrchr fuel m s ch = strlen fuel m s >>= λ n. some (strrchr_from (n + 1) m s ch)

-- What `strcmp` returns: -1, 0, 1.
pub data Sign : Type 0 where
  minus_one nought one : Sign

-- `a > b` for two characters, which are signed.
pub char_gt : ℕ → ℕ → Bool
char_gt a b = ltb ((b + 128) % 256) ((a + 128) % 256)

-- The comparison after the loop of `strcmp`.
pub char_sign : ℕ → ℕ → Sign
char_sign a b = if char_gt a b then one else if a == b then nought else minus_one

-- `for (i=0; a[i]!=0 && a[i]==b[i]; i++);` and what follows it.
pub strcmp_from : ℕ → Memory → ℕ → ℕ → ℕ → Option Sign
strcmp_from zero m a b i = none
strcmp_from (suc fuel) m a b i =
    let rest = strcmp_from fuel m a b (i + 1) in
    if not (m (a + i) == 0) && m (a + i) == m (b + i)
    then rest
    else some (char_sign (m (a + i)) (m (b + i)))

pub strcmp : ℕ → Memory → ℕ → ℕ → Option Sign
strcmp fuel m a b = strcmp_from fuel m a b 0
