-- ===== src/Strings/Copy.antt =====
-- strcpy.c and strcat.c of lib/libc.
use harvard_os161_operating.Prelude.{
  ℕ, zero, suc, ◌+◌, ◌-◌, ◌≤◌, ◌<◌, ◌≡◌, refl, sym, ◌∙◌, ◌≢◌, ◌⊎◌, some, arith, dec_lt, ℕ_discrete,
  eq→==, ne→==,
}
use harvard_os161_operating.Memory.{Memory, put}
use harvard_os161_operating.Memory.Move.{Moved}
use harvard_os161_operating.Strings.{strcpy_from, strcpy, strcat}
use harvard_os161_operating.Strings.Length.{IsString, strlen_lem}

-- After `i` rounds the first `i` characters are copied.
strcpy_from_lem :
    (fuel : ℕ) {m m' : Memory} {n : ℕ} (dest src i : ℕ)
    → IsString m src n
    → (dest + n < src) ⊎ (src + n < dest)
    → i ≤ n
    → n < i + fuel
    → Moved m m' dest src i
    → (r : Memory) × (strcpy_from fuel m' dest src i ≡ some r) × Moved m r dest src (n + 1)
unfolding strcpy_from
strcpy_from_lem zero dest src i str apart le enough so_far = absurd (omega arith)
strcpy_from_lem (suc fuel) {m} {m'} {n} dest src i str apart le enough so_far =
    let here : m' (src + i) ≡ m (src + i) = ground (arith, so_far (src + i)) in
    elim (ℕ_discrete i n) [
      | yes at_end ↦
          let last : m' (src + i) ≡ 0 = ground (arith, str.ends) in
          (
            put 1 m' (dest + i) 0,
            rw (eq→== (m' (src + i)) 0 last) refl,
            λ a. ground (arith, so_far a, str.ends),
          )
      | no before ↦
          let more : m' (src + i) ≢ 0 = λ z. str.chars i (omega arith) (sym here ∙ z) in
          let next : Moved m (put 1 m' (dest + i) (m' (src + i))) dest src (i + 1) =
            λ a. ground (arith, so_far a, here) in
          let (r, runs, moved) =
            strcpy_from_lem fuel dest src (i + 1) str apart (omega arith) (omega arith) next in
          (r, rw (ne→== (m' (src + i)) 0 more) runs, moved)
    ]

-- `strcpy` of a string that does not overlap the destination copies it with its zero, and changes
-- no other byte; it needs one round more than the string has characters.
pub strcpy_lem :
    (fuel : ℕ) {m : Memory} {n : ℕ} (dest src : ℕ)
    → IsString m src n
    → (dest + n < src) ⊎ (src + n < dest)
    → n < fuel
    → (r : Memory) × (strcpy fuel m dest src ≡ some r) × Moved m r dest src (n + 1)
unfolding strcpy
strcpy_lem fuel {m} dest src str apart enough =
    strcpy_from_lem fuel dest src 0 str apart (omega arith) (omega arith) (λ a. ground arith)

-- `strcat` appends one string to another that it does not overlap: the result is a string of both
-- lengths together, the first characters are as they were, the second string follows them, and no
-- byte behind the string has changed.
pub strcat_lem :
    (fuel : ℕ) {m : Memory} {k n : ℕ} (dest src : ℕ)
    → IsString m dest k
    → IsString m src n
    → (dest + k + n < src) ⊎ (src + n < dest)
    → k < fuel
    → n < fuel
    → (r : Memory) × (strcat fuel m dest src ≡ some r)
      × IsString r dest (k + n)
      × Moved m r (dest + k) src (n + 1)
unfolding strcat
strcat_lem fuel {m} {k} {n} dest src front str apart enough enough' =
    let (r, runs, moved) = strcpy_lem fuel (dest + k) src str (omega arith) enough' in
    (
      r,
      rw (strlen_lem fuel front enough) runs,
      record {
        chars = λ j lt. elim (dec_lt j k) [
          | yes first ↦ λ z. front.chars j first (ground (arith, moved (dest + j)))
          | no second ↦ λ z. str.chars (j - k) (omega arith) (ground (arith, moved (dest + j)))
        ];
        ends = ground (arith, moved (dest + (k + n)), str.ends);
      },
      moved,
    )
