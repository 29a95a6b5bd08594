-- ===== src/Kheap/Lists.antt =====
-- Lists of numbers without repetition: the lists of pages and of free blocks of kern/lib/kheap.c.
use mathlib.Core.Path.{subst}
use harvard_os161_operating.Prelude.{
  ℕ, zero, suc, ◌≤◌, ◌<◌, ◌≡◌, refl, ◌≢◌, inl, inr, Bool, true, false, ◌&&◌, ◌||◌, not, List, [],
  ◌∷◌, arith, ◌==◌, ==→eq, eq→==, ne→==, ==→ne, Bool-cases, length,
}
use harvard_os161_operating.Kheap.{store_at, unlink}

pub store_at_self {ℓ} : {A : Type ℓ} (f : ℕ → A) (i : ℕ) (v : A) → store_at f i v i ≡ v
unfolding store_at
store_at_self f i v = rw (eq→== i i refl) refl

pub store_at_ne {ℓ} : {A : Type ℓ} (f : ℕ → A) (i j : ℕ) (v : A) → j ≢ i → store_at f i v j ≡ f j
unfolding store_at
store_at_ne f i j v h = rw (ne→== j i h) refl

abbrev pub has : ℕ → List ℕ → Bool
has a [] = false
has a (x ∷ xs) = (a == x) || has a xs

abbrev pub Distinct : List ℕ → Type 0
Distinct [] = Unit {0}
Distinct (x ∷ xs) = (has x xs ≡ false) × Distinct xs

-- All items are below `n`.
abbrev pub AllBelow : ℕ → List ℕ → Type 0
AllBelow n [] = Unit {0}
AllBelow n (x ∷ xs) = (x < n) × AllBelow n xs

pub below_of_has : (n : ℕ) (xs : List ℕ) (a : ℕ) → AllBelow n xs → has a xs ≡ true → a < n
below_of_has n [] a h m = cc
below_of_has n (x ∷ xs) a (p, h) m = elim (Bool-cases (a == x)) [
  | inl here ↦ ground (arith, ==→eq a x here)
  | inr there ↦ below_of_has n xs a h (ground arith)
]

pub has-unlink :
    (p : ℕ) (xs : List ℕ) (a : ℕ) → Distinct xs → has a (unlink p xs) ≡ (has a xs && not (a == p))
unfolding unlink
has-unlink p [] a d = refl
has-unlink p (x ∷ xs) a (fresh, d) = elim (Bool-cases (x == p)) [
  | inl here ↦ rw here (ground (arith, ==→eq x p here, ==→eq a x))
  | inr there ↦ ground (arith, has-unlink p xs a d)
]

pub unlink-Distinct : (p : ℕ) (xs : List ℕ) → Distinct xs → Distinct (unlink p xs)
unfolding unlink
unlink-Distinct p [] d = tt
unlink-Distinct p (x ∷ xs) (fresh, d) = elim (Bool-cases (x == p)) [
  | inl here ↦ rw here d
  | inr there ↦ rw there (ground (arith, has-unlink p xs x d), unlink-Distinct p xs d)
]

length-unlink : (p : ℕ) (xs : List ℕ) → has p xs ≡ true → length xs ≡ suc (length (unlink p xs))
unfolding unlink
length-unlink p [] h = cc
length-unlink p (x ∷ xs) h = ground (arith, length-unlink p xs)

pub below_absent : (n : ℕ) (xs : List ℕ) → has n xs ≡ false → AllBelow (suc n) xs → AllBelow n xs
below_absent n [] m h = tt
below_absent n (x ∷ xs) m (p, h) = (ground (arith, ==→ne n x), below_absent n xs (ground arith) h)

-- Without the largest number that is allowed, all are below that.
unlink-AllBelow :
    (n : ℕ) (xs : List ℕ) → Distinct xs → AllBelow (suc n) xs → AllBelow n (unlink n xs)
unfolding unlink
unlink-AllBelow n [] d h = tt
unlink-AllBelow n (x ∷ xs) (fresh, d) (p, h) = elim (Bool-cases (x == n)) [
  | inl here ↦ rw here (below_absent n xs (subst (λ m. has m xs ≡ false) (==→eq x n here) fresh) h)
  | inr there ↦ rw there (omega (arith, ==→ne x n there), unlink-AllBelow n xs d h)
]

-- Distinct numbers below `n` are at most `n`.
pub length-le_of_Distinct : (n : ℕ) (xs : List ℕ) → Distinct xs → AllBelow n xs → length xs ≤ n
length-le_of_Distinct zero [] d h = omega arith
length-le_of_Distinct zero (x ∷ xs) d (p, h) = absurd (omega arith)
length-le_of_Distinct (suc n) xs d h = elim (Bool-cases (has n xs)) [
  | inl last ↦ omega (
    arith,
    length-unlink n xs last,
    length-le_of_Distinct n (unlink n xs) (unlink-Distinct n xs d) (unlink-AllBelow n xs d h),
  )
  | inr absent ↦ omega (arith, length-le_of_Distinct n xs d (below_absent n xs absent h))
]
