-- ===== src/Synch/Semaphores.antt =====
-- P and V of kern/thread/synch.c among all that threads do: no wake-up is lost.
use mathlib.Core.Path.{subst}
use mathlib.Core.Option.{some-injective, none-ne-some}
use harvard_os161_operating.Prelude.{
  ◌>>=◌, int_limit, ℕ, ◌+◌, ◌-◌, ◌<◌, ◌≡◌, refl, ap, ◌∙◌, ◌≢◌, ◌⊎◌, inl, inr, true, Option, none,
  some, arith, ℕ_discrete, ltb, eq→==, ne→==, Bool-cases, Option-cases,
}
use harvard_os161_operating.Thread.{
  System, Switch, schedule, thread_yield, thread_sleep, thread_wakeup,
}
use harvard_os161_operating.Synch.{Semaphore, Round, returns, waits, p_round, v}
use harvard_os161_operating.Synch.Sleepers.{NoneOn}
use harvard_os161_operating.Synch.Quiet.{
  Quiet, lands, schedule-Quiet, Few, sleep-Quiet, wake-Quiet, yield-Quiet,
}

-- What happens to a semaphore and the threads: rounds of `P`, calls of `V` by threads or interrupt
-- handlers, a thread that gives the processor away or sleeps on something else, a wake-up of
-- something else, and the scheduler leaving its idle loop. Each `kmalloc` succeeds.
pub data Step : Semaphore → System → Semaphore → System → Type 0 where
  takes :
      {sem sem' : Semaphore} {s : System}
      → p_round true sem s ≡ some (returns sem')
      → Step sem s sem' s
  sleeps :
      {sem : Semaphore} {s : System} {w : Switch}
      → p_round true sem s ≡ some (waits w)
      → Step sem s sem (lands w)
  gives :
      {sem sem' : Semaphore} {s s' : System} → v true sem s ≡ some (sem', s') → Step sem s sem' s'
  sleeps_elsewhere :
      {sem : Semaphore} {s : System} {w : Switch} (other : ℕ)
      → sem.addr ≢ other
      → thread_sleep true s other ≡ some w
      → Step sem s sem (lands w)
  wakes_elsewhere :
      {sem : Semaphore} {s s' : System} (other : ℕ)
      → thread_wakeup true other s ≡ some s'
      → Step sem s sem s'
  yields :
      {sem : Semaphore} {s : System} {w : Switch}
      → thread_yield true s ≡ some w
      → Step sem s sem (lands w)
  resumes :
      {sem : Semaphore} {s : System} {w : Switch} → schedule s ≡ some w → Step sem s sem (lands w)

-- Any number of steps.
pub data Steps : Semaphore → System → Semaphore → System → Type 0 where
  stay : {sem : Semaphore} {s : System} → Steps sem s sem s
  then_step :
      {sem sem' sem'' : Semaphore} {s s' s'' : System}
      → Steps sem s sem' s'
      → Step sem' s' sem'' s''
      → Steps sem s sem'' s''

-- What a round returned, and how it waits.
abbrev returned : {A : Type 0} → Round A → Option A
returned (returns a) = some a
returned (waits w) = none

abbrev switch_of : {A : Type 0} → Round A → Option Switch
switch_of (returns a) = none
switch_of (waits w) = some w

-- A round of `P` that returns takes one; the semaphore had one to give.
p_round-takes :
    (sem : Semaphore) {sem' : Semaphore} (s : System)
    → p_round true sem s ≡ some (returns sem')
    → (0 < sem.count) × (record sem { count = sem.count - 1 } ≡ sem')
unfolding p_round
p_round-takes sem {sem'} s h = elim (ℕ_discrete sem.count 0) [
  | yes z ↦ elim (Option-cases (thread_sleep true s sem.addr)) [
    | inl stuck ↦ absurd (none-ne-some _ (rw (eq→== sem.count 0 z, stuck) at h))
    | inr (w, slept) ↦
        absurd (none-ne-some _ (ap (λ r. r >>= returned) (rw (eq→== sem.count 0 z, slept) at h)))
  ]
  | no pos ↦
      (omega arith, some-injective _ _ (ap (λ r. r >>= returned) (rw (ne→== sem.count 0 pos) at h)))
]

-- A round of `P` that waits found the count 0 and went to sleep.
p_round-waits :
    (sem : Semaphore) (s : System) {w : Switch}
    → p_round true sem s ≡ some (waits w)
    → (sem.count ≡ 0) × (thread_sleep true s sem.addr ≡ some w)
unfolding p_round
p_round-waits sem s {w} h = elim (ℕ_discrete sem.count 0) [
  | yes z ↦ elim (Option-cases (thread_sleep true s sem.addr)) [
    | inl stuck ↦ absurd (none-ne-some _ (rw (eq→== sem.count 0 z, stuck) at h))
    | inr (w', slept) ↦
        (z, slept ∙ ap (λ r. r >>= switch_of) (rw (eq→== sem.count 0 z, slept) at h))
  ]
  | no pos ↦ absurd (none-ne-some _ (ap (λ r. r >>= switch_of) (rw (ne→== sem.count 0 pos) at h)))
]

v-gives :
    (sem : Semaphore) (s : System) {sem' : Semaphore} {s' : System}
    → v true sem s ≡ some (sem', s')
    → (record sem { count = sem.count + 1 } ≡ sem') × (thread_wakeup true sem.addr s ≡ some s')
unfolding v
v-gives sem s {sem'} {s'} h = elim (Bool-cases (ltb (sem.count + 1) int_limit)) [
  | inl fits ↦ elim (Option-cases (thread_wakeup true sem.addr s)) [
    | inl stuck ↦ absurd (none-ne-some _ (rw (fits, stuck) at h))
    | inr (s1, woken) ↦
        let same : (record sem { count = sem.count + 1 }, s1) ≡ (sem', s') =
          some-injective _ _ (rw (fits, woken) at h) in
        (ap (λ r. r.0) same, woken ∙ ap (λ r. some (r.1)) same)
  ]
  | inr wraps ↦ absurd (none-ne-some _ (rw wraps at h))
]

-- Each step keeps the state quiet.
pub Step-Quiet :
    {n : ℕ} {sem sem' : Semaphore} {s s' : System}
    → Few n
    → Quiet n sem s
    → Step sem s sem' s'
    → Quiet n sem' s'
Step-Quiet {n} {sem} {sem'} {s} few q (takes h) =
    let (some_left, less) = p_round-takes sem s h in
    subst (λ x. Quiet n x s) less
      (record {
        sleeping = q.sleeping;
        waiting = q.waiting;
        sees = q.sees;
        threads = q.threads;
        none_lost = lowered q.none_lost some_left;
      })
  where
    lowered :
        (sem.count ≡ 0) ⊎ NoneOn s.sleepaddr sem.addr q.sleeping
        → 0 < sem.count
        → (sem.count - 1 ≡ 0) ⊎ NoneOn s.sleepaddr sem.addr q.sleeping
    lowered (inl z) pos = absurd (omega arith)
    lowered (inr x) pos = inr x
Step-Quiet {n} {sem} {sem'} {s} few q (sleeps h) =
    let (z, slept) = p_round-waits sem s h in sleep-Quiet sem.addr few q (inl z) slept
Step-Quiet {n} {sem} {sem'} {s} {s'} few q (gives h) =
    let (more, woken) = v-gives sem s h in
    subst (λ x. Quiet n x s') more (wake-Quiet sem.addr (sem.count + 1) few q (inr refl) woken)
Step-Quiet few q (sleeps_elsewhere other ne h) = sleep-Quiet other few q (inr ne) h
Step-Quiet {n} {sem} few q (wakes_elsewhere other h) = wake-Quiet other sem.count few q (inl refl) h
Step-Quiet few q (yields h) = yield-Quiet few q h
Step-Quiet few q (resumes h) = schedule-Quiet q h

-- No wake-up is lost: from a quiet state of at most `n` threads, `n + 2 < 2 ^ 29`, however rounds of
-- `P`, calls of `V`, yields, other sleeps and wake-ups follow one another, while the count is
-- positive no thread sleeps on the semaphore, and the lists stay well-formed.
pub Steps-Quiet :
    {n : ℕ} {sem sem' : Semaphore} {s s' : System}
    → Few n
    → Quiet n sem s
    → Steps sem s sem' s'
    → Quiet n sem' s'
Steps-Quiet few q stay = q
Steps-Quiet few q (then_step steps step) = Step-Quiet few (Steps-Quiet few q steps) step
