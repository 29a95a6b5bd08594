-- ===== src/Prelude.antt =====
-- What the components share: library names passed on, tests, lists over the native numbers, the
-- status codes of kern/include/kern/errno.h, and running code that may stop the kernel.
mod Tests
mod Lists
pub use Tests.*
pub use Lists.*
pub use Prim.Native.Nat.{ℕ, zero, suc, ◌+◌, ◌-◌, ◌*◌, ◌/◌, ◌%◌, ◌^◌, ◌≤◌, ◌<◌, min}
pub use mathlib.Core.Path.{◌≡◌, refl, sym, ap, ◌∙◌}
pub use mathlib.Core.Logic.{◌≢◌, ◌↔◌, ◌⊎◌, inl, inr}
pub use mathlib.Core.Bool.{Bool, true, false, ◌&&◌, ◌||◌, not}
pub use mathlib.Core.Option.{Option, none, some}
pub use mathlib.Core.List.{List, [], ◌∷◌, ◌++◌}
pub use native.Mathlib.Omega.{arith}
unfoldable pub use native.Mathlib.Decide.{dec_lt, ℕ_discrete}

-- The codes that a kernel function returns: 0, and those of kern/include/kern/errno.h.
pub data Status : Type 0 where
  success enomem einval enospc efault enametoolong enoent eexist eio ebusy eunimp enodev enxio :
      Status

-- `none` is a run that does not go on: a failed `assert`, a `panic`, an access outside the block
-- that was allocated, or an overflow of a signed integer.
infixl 5 ◌>>=◌ ◌>>◌
abbrev pub ◌>>=◌ {ℓ κ} : {A : Type ℓ} {B : Type κ} → Option A → (A → Option B) → Option B
none >>= f = none
some a >>= f = f a

abbrev pub ◌>>◌ {ℓ} : {B : Type ℓ} → Option (Unit {0}) → Option B → Option B
m >> k = m >>= λ _. k

abbrev pub guard : Bool → Option (Unit {0})
guard true = some tt
guard false = none

-- A store into a block; outside of it the run does not go on.
abbrev pub store {ℓ} : {A : Type ℓ} → List A → ℕ → A → Option (List A)
store xs i v = if ltb i (length xs) then some (set xs i v) else none

-- One past the largest `int`.
abbrev pub int_limit : ℕ
int_limit = 2 ^ 31

-- Values of `size_t` and `u_int32_t` wrap at this number.
abbrev pub u32_mod : ℕ
u32_mod = 2 ^ 32

-- The pointer cells of a block that `kmalloc` returns for `n * sizeof(void *)`: the product wraps.
-- Nothing is known of what the cells hold.
abbrev pub fresh_cells : ℕ → List (Option ℕ)
fresh_cells n = replicate (n * 4 % u32_mod / 4) none

-- `if (result)` after `result = f(...)`: whether the call succeeded.
abbrev pub is_success : Status → Bool
is_success success = true
is_success _ = false

-- Below 2 ^ 30 cells the product does not wrap.
pub length-fresh_cells : (n : ℕ) → n < 2 ^ 30 → length (fresh_cells n) ≡ n
length-fresh_cells n h = omega (arith, length-replicate {0} (n * 4 % 2 ^ 32 / 4) none)
