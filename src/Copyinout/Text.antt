-- ===== src/Copyinout/Text.antt =====
-- `copystr`, `copyinstr` and `copyoutstr` of kern/lib/copyinout.c.
use mathlib.Core.Path.{subst}
use Prim.Native.Nat.{zero-le}
use harvard_os161_operating.Prelude.{
  success, efault, ℕ, zero, suc, ◌+◌, ◌-◌, ◌^◌, ◌≤◌, ◌<◌, ◌≡◌, sym, ap, refl, ◌∙◌, ◌≢◌, ◌⊎◌, inl,
  inr, true, false, none, some, arith, ℕ_discrete, ltb, leb, if◌then◌else◌, lt→ltb, eq→==, ne→==,
  Bool-cases,
}
use harvard_os161_operating.Memory.{Memory, put}
use harvard_os161_operating.Memory.Move.{Moved}
use harvard_os161_operating.Strings.Length.{IsString}
use harvard_os161_operating.Copyinout.{
  user_top, copycheck, copystr_from, copystr, guarded_str, copyinstr, copyoutstr,
}
use harvard_os161_operating.Copyinout.Check.{copycheck_lem}

-- The loop ends at the zero, with everything up to it copied.
copystr_from_lem :
    (n i : ℕ) {m m' : Memory} {k : ℕ} (dest src maxlen stoplen : ℕ)
    → IsString m src k
    → (dest + k < src) ⊎ (src + k < dest)
    → k < maxlen
    → k < stoplen
    → i ≤ k
    → k < i + n
    → Moved m m' dest src i
    → (r : Memory) × (copystr_from n i m' dest src maxlen stoplen ≡ (success, some (k + 1), r))
      × Moved m r dest src (k + 1)
unfolding copystr_from
copystr_from_lem zero i dest src maxlen stoplen str apart fits fits' le enough so_far =
    absurd (omega arith)
copystr_from_lem (suc n) i {m} {m'} {k} dest src maxlen stoplen str apart fits fits' le enough
      so_far =
    let here : m' (src + i) ≡ m (src + i) = ground (arith, so_far (src + i)) in
    let kept : put 1 m' (dest + i) (m' (src + i)) (src + i) ≡ m (src + i) = ground (arith, here) in
    let next : Moved m (put 1 m' (dest + i) (m' (src + i))) dest src (i + 1) =
      λ a. ground (arith, so_far a, here) in
    let on : ltb i maxlen ≡ true = lt→ltb i maxlen (omega arith) in
    let on' : ltb i stoplen ≡ true = lt→ltb i stoplen (omega arith) in
    elim (ℕ_discrete i k) [
      | yes at_end ↦
          let last : put 1 m' (dest + i) (m' (src + i)) (src + i) ≡ 0 =
            ground (arith, kept, str.ends) in
          (
            put 1 m' (dest + i) (m' (src + i)),
            rw (on, on', eq→== _ 0 last)
                (ap (λ x. (success, some (x + 1), put 1 m' (dest + i) (m' (src + i)))) at_end),
            subst (λ x. Moved m (put 1 m' (dest + i) (m' (src + i))) dest src (x + 1)) at_end next,
          )
      | no before ↦
          let more : put 1 m' (dest + i) (m' (src + i)) (src + i) ≢ 0 =
            λ z. str.chars i (omega arith) (sym kept ∙ z) in
          let (r, runs, moved) =
            copystr_from_lem n (i + 1) dest src maxlen stoplen str apart fits fits' (omega arith)
              (omega arith) next in
          (r, rw (on, on', ne→== _ 0 more) runs, moved)
    ]

-- Where user memory goes on behind character `k`, and the length given does too, `copycheck` lets
-- the copy reach that character.
reaches :
    (userptr len k : ℕ)
    → userptr + k < user_top
    → k < len
    → userptr + len ≤ 2 ^ 32
    → len < 2 ^ 32
    → (stoplen : ℕ) × (copycheck userptr len ≡ some stoplen) × (k < stoplen)
reaches userptr len k in_user in_len top small =
    let e = copycheck_lem userptr len (omega arith) small (omega arith) in
    elim (Bool-cases (leb (userptr + len) user_top)) [
      | inl fits ↦ (len, ground (arith, e), in_len)
      | inr cut ↦ (user_top - userptr, ground (arith, e), omega arith)
    ]

-- `copystr` of a string that ends before both limits.
pub copystr_lem :
    (m : Memory) (dest src k maxlen stoplen : ℕ)
    → IsString m src k
    → (dest + k < src) ⊎ (src + k < dest)
    → k < maxlen
    → k < stoplen
    → (r : Memory) × (copystr m dest src maxlen stoplen ≡ (success, some (k + 1), r))
      × Moved m r dest src (k + 1)
unfolding copystr
copystr_lem m dest src k maxlen stoplen str apart fits fits' =
    copystr_from_lem maxlen 0 dest src maxlen stoplen str apart fits fits' zero-le (omega arith)
      (λ a. ground arith)

-- A length that wraps around is refused.
wraps :
    (userptr len : ℕ)
    → userptr < user_top
    → len < 2 ^ 32
    → leb (userptr + len) (2 ^ 32) ≡ false
    → copycheck userptr len ≡ none
wraps userptr len user small over =
    copycheck_lem userptr len (omega arith) small (ground (arith, over)) ∙ ground (arith, over)

-- What the two functions on strings do with a string of `k` characters.
string-Moved :
    (userptr dest src len k : ℕ) (m : Memory)
    → IsString m src k
    → (dest + k < src) ⊎ (src + k < dest)
    → userptr + k < user_top
    → k < len
    → len < 2 ^ 32
    → (r : Memory) × (guarded_str (copycheck userptr len) none m dest src len
        ≡ (if leb (userptr + len) (2 ^ 32) then (success, some (k + 1), r) else (efault, none, m)))
      × Moved m r dest src (k + 1)
unfolding guarded_str
string-Moved userptr dest src len k m str apart in_user fits small =
    elim (Bool-cases (leb (userptr + len) (2 ^ 32))) [
      | inl top ↦
          let (stoplen, checked, reach) =
            reaches userptr len k in_user fits (ground (arith, top)) small in
          let (r, runs, moved) = copystr_lem m dest src k len stoplen str apart fits reach in
          (r, rw (checked, top) runs, moved)
      | inr over ↦
          let (r, _, moved) =
            copystr_lem m dest src k (k + 1) (k + 1) str apart (omega arith) (omega arith) in
          (r, rw (wraps userptr len (omega arith) small over, over) refl, moved)
    ]

-- `copyinstr` of a string that ends in user memory and is shorter than the length given, where no
-- access faults and the two places do not overlap. If address and length do not go beyond 2^32, it
-- returns 0 with the length of the string, its zero included; the string is copied and nothing else
-- changes, even if the length given reaches into kernel memory. If they do, it returns EFAULT and
-- nothing changes.
pub copyinstr_lem :
    (m : Memory) (usersrc dest len k : ℕ)
    → IsString m usersrc k
    → (dest + k < usersrc) ⊎ (usersrc + k < dest)
    → usersrc + k < user_top
    → k < len
    → len < 2 ^ 32
    → (r : Memory) × (copyinstr none m usersrc dest len
        ≡ (if leb (usersrc + len) (2 ^ 32) then (success, some (k + 1), r) else (efault, none, m)))
      × Moved m r dest usersrc (k + 1)
unfolding copyinstr
copyinstr_lem m usersrc dest len k str apart in_user fits small =
    string-Moved usersrc dest usersrc len k m str apart in_user fits small

-- `copyoutstr` puts a string into user memory under the same conditions on the destination.
pub copyoutstr_lem :
    (m : Memory) (src userdest len k : ℕ)
    → IsString m src k
    → (userdest + k < src) ⊎ (src + k < userdest)
    → userdest + k < user_top
    → k < len
    → len < 2 ^ 32
    → (r : Memory) × (copyoutstr none m src userdest len
        ≡ (if leb (userdest + len) (2 ^ 32) then (success, some (k + 1), r) else (efault, none, m)))
      × Moved m r userdest src (k + 1)
unfolding copyoutstr
copyoutstr_lem m src userdest len k str apart in_user fits small =
    string-Moved userdest userdest src len k m str apart in_user fits small
