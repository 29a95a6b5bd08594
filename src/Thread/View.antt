-- ===== src/Thread/View.antt =====
-- The lists of kern/thread/thread.c as lists of threads.
use harvard_os161_operating.Prelude.{
  ℕ, suc, ◌+◌, ◌^◌, ◌≤◌, ◌<◌, ◌≡◌, refl, ap, ◌⊎◌, Bool, true, Option, some, List, [], ◌∷◌, ◌++◌,
  arith, ◌==◌, if◌then◌else◌, length,
}
use harvard_os161_operating.Array.Valid as ArrayValid
use harvard_os161_operating.Array.Items.{items}
use harvard_os161_operating.Queue.Holds.{Holds}
use harvard_os161_operating.Thread.{System}

-- The cells that hold these threads.
abbrev pub ptrs : List ℕ → List (Option ℕ)
ptrs [] = []
ptrs (t ∷ ts) = some t ∷ ptrs ts

pub length-ptrs : (ts : List ℕ) → length (ptrs ts) ≡ length ts
length-ptrs [] = refl
length-ptrs (t ∷ ts) = ap suc (length-ptrs ts)

pub ptrs-append : (ts us : List ℕ) → ptrs (ts ++ us) ≡ ptrs ts ++ ptrs us
ptrs-append [] us = refl
ptrs-append (t ∷ ts) us = ap (λ l. some t ∷ l) (ptrs-append ts us)

-- `sleeping` are on `sleepers[]` and `waiting` on the run queue, in order.
pub record Sees (s : System) (sleeping waiting : List ℕ) : Type 0 where
  pub array : ArrayValid.IsValid s.sleepers
  pub sleeps : items s.sleepers ≡ ptrs sleeping
  pub runs : Holds s.runqueue (ptrs waiting)

-- The threads that sleep on an address.
abbrev pub on_addr : (ℕ → ℕ) → ℕ → List ℕ → List ℕ
on_addr f addr [] = []
on_addr f addr (t ∷ ts) = if f t == addr then t ∷ on_addr f addr ts else on_addr f addr ts

-- The threads that sleep on another address, or on none.
abbrev pub off_addr : (ℕ → ℕ) → ℕ → List ℕ → List ℕ
off_addr f addr [] = []
off_addr f addr (t ∷ ts) = if f t == addr then off_addr f addr ts else t ∷ off_addr f addr ts

pub length-on_addr : (f : ℕ → ℕ) (addr : ℕ) (ts : List ℕ) → length (on_addr f addr ts) ≤ length ts
length-on_addr f addr [] = omega arith
length-on_addr f addr (t ∷ ts) = ground (arith, length-on_addr f addr ts)

-- Room on the run queue for `n` more threads, or memory to make it.
abbrev pub HasRoom : Bool → System → List ℕ → ℕ → Type 0
HasRoom mem s waiting n = (length waiting + n < s.runqueue.size) ⊎ (mem ≡ true)

abbrev pub IsSmall : List ℕ → ℕ → Type 0
IsSmall waiting n = length waiting + n + 1 < 2 ^ 29
