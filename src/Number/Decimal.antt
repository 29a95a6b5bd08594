-- ===== src/Number/Decimal.antt =====
-- atoi.c of lib/libc reads what decimal notation means.
use harvard_os161_operating.Prelude.{
  ℕ, zero, suc, ◌+◌, ◌-◌, ◌*◌, ◌%◌, ◌^◌, ◌<◌, ◌≡◌, refl, sym, ap, ◌≢◌, none, some, List, [], ◌∷◌,
  arith, eq→==, ne→==, length,
}
use harvard_os161_operating.Memory.{Memory}
use harvard_os161_operating.Number.{digits, digit_at, skip_blanks, digits_from, atoi}

-- The digits `ds` stand at `s`, and no digit behind them.
pub data Reads (m : Memory) : ℕ → List ℕ → Type 0 where
  stops : {s : ℕ} → digit_at digits 0 (m s) ≡ none → Reads m s []
  digit : {s d : ℕ} {ds : List ℕ} → d < 10 → m s ≡ 48 + d → Reads m (s + 1) ds → Reads m s (d ∷ ds)

-- The number that digits stand for behind those of `val`.
pub value : ℕ → List ℕ → ℕ
value val [] = val
value val (d ∷ ds) = value (val * 10 + d) ds

digit_at_lem : (c d : ℕ) → d < 10 → c ≡ 48 + d → digit_at digits 0 c ≡ some d
unfolding digit_at
digit_at_lem c d h e = ground arith

digits_from_lem :
    (fuel : ℕ) (m : Memory) (s val val' : ℕ) (ds : List ℕ)
    → Reads m s ds
    → length ds < fuel
    → val % 2 ^ 32 ≡ val'
    → digits_from fuel m s val' ≡ some (value val ds % 2 ^ 32)
unfolding digits_from value
digits_from_lem zero m s val val' ds r enough e = absurd (omega arith)
digits_from_lem (suc fuel) m s val val' [] (stops none_here) enough e =
    rw (digits_from, none_here) (ap some (sym e))
digits_from_lem (suc fuel) m s val val' (d ∷ ds) (digit small here r) enough e =
    let not_end : m s ≢ 0 = omega arith in
    rw (digits_from, digit_at_lem (m s) d small here, ne→== (m s) 0 not_end)
      (digits_from_lem fuel m (s + 1) (val * 10 + d) ((val' * 10 + d) % 2 ^ 32) ds r (omega arith)
        (omega arith))

no_blank :
    (fuel : ℕ) (m : Memory) (s : ℕ) → m s ≢ 32 → m s ≢ 9 → skip_blanks (suc fuel) m s ≡ some s
unfolding skip_blanks
no_blank fuel m s a b = rw (ne→== (m s) 32 a, ne→== (m s) 9 b) refl

-- `atoi` of a minus sign and decimal digits gives the negative of the number that they stand for,
-- modulo 2 ^ 32; one round of fuel more than there are digits is enough.
pub atoi_minus :
    (fuel : ℕ) (m : Memory) (s : ℕ) (ds : List ℕ)
    → length ds < fuel
    → m s ≡ 45
    → Reads m (s + 1) ds
    → atoi fuel m s ≡ some ((2 ^ 32 - value 0 ds % 2 ^ 32) % 2 ^ 32)
unfolding atoi
atoi_minus zero m s ds enough minus r = absurd (omega arith)
atoi_minus (suc fuel) m s ds enough minus r =
    rw
      (
        no_blank fuel m s (omega arith) (omega arith),
        eq→== (m s) 45 minus,
        digits_from_lem (suc fuel) m (s + 1) 0 0 ds r enough refl,
      )
      refl

-- `atoi` of decimal digits gives the number that they stand for, modulo 2 ^ 32; one round of fuel
-- more than there are digits is enough.
pub atoi_plain :
    (fuel : ℕ) (m : Memory) (s d : ℕ) (ds : List ℕ)
    → length ds + 1 < fuel
    → Reads m s (d ∷ ds)
    → atoi fuel m s ≡ some (value 0 (d ∷ ds) % 2 ^ 32)
unfolding atoi
atoi_plain zero m s d ds enough r = absurd (omega arith)
atoi_plain (suc fuel) m s d ds enough (digit small here r) =
    rw
      (
        no_blank fuel m s (omega arith) (omega arith),
        ne→== (m s) 45 (omega arith),
        ne→== (m s) 43 (omega arith),
        digits_from_lem (suc fuel) m s 0 0 (d ∷ ds) (digit small here r) (omega arith) refl,
      )
      refl
