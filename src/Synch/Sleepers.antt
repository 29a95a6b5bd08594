-- ===== src/Synch/Sleepers.antt =====
-- Which threads sleep on an address, after others went to sleep or were woken.
use harvard_os161_operating.Prelude.{
  ℕ, ◌≡◌, refl, ap, ◌≢◌, inl, inr, false, List, [], ◌∷◌, ◌++◌, arith, ◌==◌, if◌then◌else◌,
  Bool-cases, length,
}
use harvard_os161_operating.Thread.View.{on_addr, off_addr}

-- No listed thread sleeps on the address.
abbrev pub NoneOn : (ℕ → ℕ) → ℕ → List ℕ → Type 0
NoneOn f addr ts = on_addr f addr ts ≡ []

-- Who was taken off the list was all who slept there.
pub off_addr-NoneOn : (f : ℕ → ℕ) (addr : ℕ) (ts : List ℕ) → NoneOn f addr (off_addr f addr ts)
off_addr-NoneOn f addr [] = refl
off_addr-NoneOn f addr (t ∷ ts) = elim (Bool-cases (f t == addr)) [
  | inl e ↦ rw e (off_addr-NoneOn f addr ts)
  | inr e ↦ rw (e, e) (off_addr-NoneOn f addr ts)
]

not_empty : {t : ℕ} {ts : List ℕ} → ¬ (t ∷ ts ≡ [])
not_empty {t} {ts} e = let l : length (t ∷ ts) ≡ 0 = ap length e in omega (arith, l)

-- A thread that goes to sleep elsewhere adds none.
pub sleep-NoneOn :
    (f g : ℕ → ℕ) (addr other cur : ℕ) (ts : List ℕ)
    → ((t : ℕ) → g t ≡ (if cur == t then other else f t))
    → addr ≢ other
    → NoneOn f addr ts
    → NoneOn g addr (ts ++ (cur ∷ []))
sleep-NoneOn f g addr other cur [] same ne h = ground (arith, same cur)
sleep-NoneOn f g addr other cur (t ∷ ts) same ne h = elim (Bool-cases (f t == addr)) [
  | inl e ↦ absurd (not_empty (rw e at h))
  | inr e ↦
      let here : (g t == addr) ≡ false = ground (arith, same t, e) in
      rw here (sleep-NoneOn f g addr other cur ts same ne (rw e at h))
]

-- Waking the threads of another address leaves none.
pub off_addr-keeps :
    (f : ℕ → ℕ) (addr other : ℕ) (ts : List ℕ)
    → NoneOn f addr ts
    → NoneOn f addr (off_addr f other ts)
off_addr-keeps f addr other [] h = refl
off_addr-keeps f addr other (t ∷ ts) h = elim (Bool-cases (f t == addr)) [
  | inl e ↦ absurd (not_empty (rw e at h))
  | inr e ↦
      let rest : NoneOn f addr (off_addr f other ts) = off_addr-keeps f addr other ts (rw e at h) in
      elim (Bool-cases (f t == other)) [ inl e' ↦ rw e' rest | inr e' ↦ rw (e', e) rest ]
]
