-- ===== src/Process/Pids.antt =====
-- The list of processes of kern/userprog/fork.c.
use mathlib.Core.Option.{none-ne-some}
use harvard_os161_operating.Prelude.{
  ◌>>=◌, ℕ, ◌+◌, ◌≤◌, ◌<◌, ◌≡◌, refl, sym, ap, ◌∙◌, inl, inr, true, false, Option, none, some, List,
  [], ◌∷◌, ◌++◌, arith, ◌==◌, if◌then◌else◌, ne→==, Bool-cases, Option-cases,
}
use harvard_os161_operating.Process.{Process, pidlist_create, find, pidlist_exit}

-- The pids rise along the list, from above `low`, and none is above `high`.
abbrev pub Ascends : ℕ → List Process → ℕ → Type 0
Ascends low [] high = low ≤ high
Ascends low (p ∷ ps) high = (low < p.pid) × Ascends p.pid ps high

pub Ascends-le : (low : ℕ) (ps : List Process) (high : ℕ) → Ascends low ps high → low ≤ high
Ascends-le low [] high a = a
Ascends-le low (p ∷ ps) high (lt, a) = omega (arith, Ascends-le p.pid ps high a)

pub Ascends-append :
    (low : ℕ) (ps : List Process) (high : ℕ)
    → Ascends low ps high
    → Ascends low (ps ++ (pidlist_create (high + 1) ∷ [])) (high + 1)
Ascends-append low [] high a = (omega arith, omega arith)
Ascends-append low (p ∷ ps) high (lt, a) = (lt, Ascends-append p.pid ps high a)

pub Ascends-more :
    (low : ℕ) (ps : List Process) (high : ℕ) → Ascends low ps high → Ascends low ps (high + 1)
Ascends-more low [] high a = omega arith
Ascends-more low (p ∷ ps) high (lt, a) = (lt, Ascends-more p.pid ps high a)

pub exit-Ascends :
    (low : ℕ) (ps : List Process) (high pid exitcode : ℕ)
    → Ascends low ps high
    → Ascends low (pidlist_exit pid exitcode ps) high
unfolding pidlist_exit
exit-Ascends low [] high pid exitcode a = a
exit-Ascends low (p ∷ ps) high pid exitcode (lt, a) = elim (Bool-cases (pid == p.pid)) [
  | inl here ↦ rw here (lt, a)
  | inr there ↦ rw there (lt, exit-Ascends p.pid ps high pid exitcode a)
]

-- A pid above the last is not on the list.
pub find-new :
    (low : ℕ) (ps : List Process) (high pid : ℕ)
    → Ascends low ps high
    → high < pid
    → find pid ps ≡ none
unfolding find
find-new low [] high pid a h = refl
find-new low (p ∷ ps) high pid (lt, a) h =
    let rest = find-new p.pid ps high pid a h in
    rw (ne→== pid p.pid (omega (arith, Ascends-le p.pid ps high a))) rest

pub find-append :
    (ps : List Process) (q : Process) (pid : ℕ)
    → find pid (ps ++ (q ∷ []))
      ≡ elim (find pid ps) [ some p ↦ some p | none ↦ if pid == q.pid then some q else none ]
unfolding find
find-append [] q pid = refl
find-append (p ∷ ps) q pid = elim (Bool-cases (pid == p.pid)) [
  | inl here ↦ rw here refl
  | inr there ↦ rw there (find-append ps q pid)
]

-- `pidlist_exit` changes the record of its process, and no other.
pub find-exit :
    (ps : List Process) (own exitcode pid : ℕ) (p : Process)
    → find pid ps ≡ some p
    → find pid (pidlist_exit own exitcode ps)
      ≡ some (if own == pid then record p { has_exited = true; exitcode = some exitcode } else p)
unfolding find pidlist_exit
find-exit [] own exitcode pid p e = cc e
find-exit (q ∷ qs) own exitcode pid p e = elim (Bool-cases (pid == q.pid)) [
  | inl here ↦
      let same : some q ≡ some p = rw here at e in
      elim (Bool-cases (own == q.pid)) [
        | inl mine ↦
            let mine' : (own == pid) ≡ true = ground (arith, mine, here) in
            rw (mine, here, mine')
              (ap
                (λ (o : Option Process).
                  o >>= λ x. some (record x { has_exited = true; exitcode = some exitcode }))
                same)
        | inr other ↦
            let other' : (own == pid) ≡ false = ground (arith, other, here) in
            rw (other, here, other') same
      ]
  | inr there ↦
      let rest : find pid qs ≡ some p = rw there at e in
      elim (Bool-cases (own == q.pid)) [
        | inl mine ↦
            let other : (own == pid) ≡ false = ground (arith, mine, there) in
            rw (mine, there, other) rest
        | inr other ↦ rw (other, there) (find-exit qs own exitcode pid p rest)
      ]
]

find-exit_none :
    (ps : List Process) (own exitcode pid : ℕ)
    → find pid ps ≡ none
    → find pid (pidlist_exit own exitcode ps) ≡ none
unfolding find pidlist_exit
find-exit_none [] own exitcode pid e = refl
find-exit_none (q ∷ qs) own exitcode pid e = elim (Bool-cases (pid == q.pid)) [
  | inl here ↦ absurd (none-ne-some _ (sym (rw here at e)))
  | inr there ↦
      let rest : find pid qs ≡ none = rw there at e in
      elim (Bool-cases (own == q.pid)) [
        | inl mine ↦ rw (mine, there) rest
        | inr other ↦ rw (other, there) (find-exit_none qs own exitcode pid rest)
      ]
]

-- A record, if there is one, that says that the process has exited with this code.
abbrev pub marked : ℕ → Option Process → Option Process
marked exitcode none = none
marked exitcode (some p) = some (record p { has_exited = true; exitcode = some exitcode })

-- For any pid.
pub find-exit_any :
    (ps : List Process) (own exitcode pid : ℕ)
    → find pid (pidlist_exit own exitcode ps)
      ≡ (if own == pid then marked exitcode (find pid ps) else find pid ps)
find-exit_any ps own exitcode pid = elim (Option-cases (find pid ps)) [
  | inl missing ↦ find-exit_none ps own exitcode pid missing ∙ rw missing (ground arith)
  | inr (p, listed) ↦ find-exit ps own exitcode pid p listed ∙ rw listed (ground arith)
]
