-- ===== src/Synch/Quiet.antt =====
-- No thread sleeps on a semaphore of kern/thread/synch.c that has something to give: what the
-- functions of kern/thread/thread.c do to that.
use mathlib.Core.Path.{subst}
use mathlib.Core.Option.{some-injective, none-ne-some}
use harvard_os161_operating.Prelude.{
  ℕ, suc, ◌+◌, ◌^◌, ◌≤◌, ◌<◌, ◌≡◌, refl, sym, ap, ◌∙◌, ◌≢◌, ◌⊎◌, inl, inr, true, Option, none, some,
  List, [], ◌∷◌, ◌++◌, arith, ◌==◌, if◌then◌else◌, Option-cases, length, length-append,
}
use harvard_os161_operating.Thread.{
  System, Switch, switched, idles, schedule, thread_yield, thread_sleep, thread_wakeup,
}
use harvard_os161_operating.Thread.View.{Sees, length-ptrs, on_addr, off_addr}
use harvard_os161_operating.Thread.RoundRobin.{
  schedule_next, schedule_idle, thread_yield_lem, thread_sleep_lem, thread_sleep_nobody,
  thread_yield_nobody,
}
use harvard_os161_operating.Thread.Wakeup.{thread_wakeup_lem}
use harvard_os161_operating.Array.Items.{length-items}
use harvard_os161_operating.Synch.{Semaphore}
use harvard_os161_operating.Synch.Sleepers.{NoneOn, off_addr-NoneOn, sleep-NoneOn, off_addr-keeps}

-- The state after a switch.
abbrev pub lands : Switch → System
lands (switched next s) = s
lands (idles s) = s

abbrev pub running : Option ℕ → ℕ
running none = 0
running (some t) = 1

-- A well-formed state of at most `n` threads in which no thread sleeps on the semaphore while its
-- count is positive.
pub record Quiet (n : ℕ) (sem : Semaphore) (s : System) : Type 0 where
  pub sleeping : List ℕ
  pub waiting : List ℕ
  pub sees : Sees s sleeping waiting
  pub threads : length sleeping + length waiting + running s.curthread ≤ n
  pub none_lost : (sem.count ≡ 0) ⊎ NoneOn s.sleepaddr sem.addr sleeping

-- The scheduler moves one thread from the run queue to the processor, or nothing.
pub schedule-Quiet :
    {n : ℕ} {sem : Semaphore} {s : System} {w : Switch}
    → Quiet n sem s
    → schedule s ≡ some w
    → Quiet n sem (lands w)
schedule-Quiet {n} {sem} {s} {w} q h = go q.waiting q.sees q.threads
  where
    go :
        (waiting : List ℕ)
        → Sees s q.sleeping waiting
        → length q.sleeping + length waiting + running s.curthread ≤ n
        → Quiet n sem (lands w)
    go [] view few =
        let e : idles s ≡ w = some-injective _ _ (sym (schedule_idle view) ∙ h) in
        subst (λ x. Quiet n sem (lands x)) e q
    go (next ∷ rest) view few =
        let (s', runs, sees, current, addr, _) = schedule_next next view in
        let e : switched next s' ≡ w = some-injective _ _ (sym runs ∙ h) in
        subst (λ x. Quiet n sem (lands x)) e
          (record {
            sleeping = q.sleeping;
            waiting = rest;
            sees = sees;
            threads = rw current (omega arith);
            none_lost = rw addr q.none_lost;
          })

-- The sizes that the theorems on threads ask for.
abbrev pub Few : ℕ → Type 0
Few n = n + 2 < 2 ^ 29

length-sleepers : {s : System} {sl w : List ℕ} → Sees s sl w → s.sleepers.num ≡ length sl
length-sleepers {s} {sl} view =
    omega (arith, length-items view.array, ap length view.sleeps, length-ptrs sl)

-- Going to sleep, on the semaphore when its count is 0, or elsewhere.
pub sleep-Quiet :
    {n : ℕ} {sem : Semaphore} {s : System} {w : Switch} (addr : ℕ)
    → Few n
    → Quiet n sem s
    → (sem.count ≡ 0) ⊎ (sem.addr ≢ addr)
    → thread_sleep true s addr ≡ some w
    → Quiet n sem (lands w)
sleep-Quiet {n} {sem} {s} {w} addr few q why h = elim (Option-cases s.curthread) [
  | inl nobody ↦ absurd (none-ne-some _ (sym (thread_sleep_nobody true s addr nobody) ∙ h))
  | inr (cur, now) ↦
      let (s', goes, sees, same, off, _) =
        thread_sleep_lem true addr cur q.sees now (inr refl)
          (omega (arith, length-sleepers q.sees, q.threads)) in
      schedule-Quiet (asleep cur now s' sees same off) (sym goes ∙ h)
]
  where
    lost :
        (g : ℕ → ℕ) (cur : ℕ)
        → ((t : ℕ) → g t ≡ (if cur == t then addr else s.sleepaddr t))
        → (sem.count ≡ 0) ⊎ NoneOn s.sleepaddr sem.addr q.sleeping
        → (sem.count ≡ 0) ⊎ (sem.addr ≢ addr)
        → (sem.count ≡ 0) ⊎ NoneOn g sem.addr (q.sleeping ++ (cur ∷ []))
    lost g cur same (inl z) y = inl z
    lost g cur same (inr x) (inl z) = inl z
    lost g cur same (inr x) (inr ne) =
        inr (sleep-NoneOn s.sleepaddr g sem.addr addr cur q.sleeping same ne x)

    asleep :
        (cur : ℕ)
        → s.curthread ≡ some cur
        → (s' : System) → Sees s' (q.sleeping ++ (cur ∷ [])) q.waiting
        → ((t : ℕ) → s'.sleepaddr t ≡ (if cur == t then addr else s.sleepaddr t))
        → s'.curthread ≡ none
        → Quiet n sem s'
    asleep cur now s' sees same off =
        let one : running s.curthread ≡ 1 = ap running now in
        let no_one : running s'.curthread ≡ 0 = ap running off in
        record {
          sleeping = q.sleeping ++ (cur ∷ []);
          waiting = q.waiting;
          sees = sees;
          threads = omega (arith, one, no_one, q.threads, length-append q.sleeping (cur ∷ []));
          none_lost = lost s'.sleepaddr cur same q.none_lost why;
        }

length-parted :
    (f : ℕ → ℕ) (addr : ℕ) (ts : List ℕ)
    → length (off_addr f addr ts) + length (on_addr f addr ts) ≡ length ts
length-parted f addr [] = refl
length-parted f addr (t ∷ ts) = ground (arith, length-parted f addr ts)

-- Waking the threads of one address: its own, when the count is raised, or another.
pub wake-Quiet :
    {n : ℕ} {sem : Semaphore} {s s' : System} (addr count : ℕ)
    → Few n
    → Quiet n sem s
    → (count ≡ sem.count) ⊎ (addr ≡ sem.addr)
    → thread_wakeup true addr s ≡ some s'
    → Quiet n (record sem { count = count }) s'
wake-Quiet {n} {sem} {s} {s'} addr count few q why h =
    let (s1, runs, sees, current, _, addrs) =
      thread_wakeup_lem true addr q.sees (inr refl) (omega (arith, q.threads)) in
    subst (λ x. Quiet n (record sem { count = count }) x) (some-injective _ _ (sym runs ∙ h))
      (record {
        sleeping = off_addr s.sleepaddr addr q.sleeping;
        waiting = q.waiting ++ on_addr s.sleepaddr addr q.sleeping;
        sees = sees;
        threads = rw current (
            omega (
              arith,
              q.threads,
              length-append q.waiting (on_addr s.sleepaddr addr q.sleeping),
              length-parted s.sleepaddr addr q.sleeping,
            ));
        none_lost = rw addrs (awake q.none_lost why);
      })
  where
    awake :
        (sem.count ≡ 0) ⊎ NoneOn s.sleepaddr sem.addr q.sleeping
        → (count ≡ sem.count) ⊎ (addr ≡ sem.addr)
        → (count ≡ 0) ⊎ NoneOn s.sleepaddr sem.addr (off_addr s.sleepaddr addr q.sleeping)
    awake x (inr own) = inr (
        subst (λ a. NoneOn s.sleepaddr a (off_addr s.sleepaddr addr q.sleeping)) own
          (off_addr-NoneOn s.sleepaddr addr q.sleeping))
    awake (inl z) (inl e) = inl (e ∙ z)
    awake (inr x) (inl e) = inr (off_addr-keeps s.sleepaddr sem.addr addr q.sleeping x)

-- A thread that gives the processor away.
pub yield-Quiet :
    {n : ℕ} {sem : Semaphore} {s : System} {w : Switch}
    → Few n
    → Quiet n sem s
    → thread_yield true s ≡ some w
    → Quiet n sem (lands w)
yield-Quiet {n} {sem} {s} {w} few q h = elim (Option-cases s.curthread) [
  | inl nobody ↦
      subst (λ x. Quiet n sem (lands x))
        (some-injective _ _ (sym (thread_yield_nobody true s nobody) ∙ h)) q
  | inr (cur, now) ↦ go q.waiting cur now q.sees q.threads
]
  where
    behind :
        (cur next : ℕ) (rest waiting : List ℕ)
        → waiting ++ (cur ∷ []) ≡ next ∷ rest
        → s.curthread ≡ some cur
        → Sees s q.sleeping waiting
        → length q.sleeping + length waiting + running s.curthread ≤ n
        → Quiet n sem (lands w)
    behind cur next rest waiting order now view few' =
        let one : running s.curthread ≡ 1 = ap running now in
        let (s', runs, sees, current, addrs, _) =
          thread_yield_lem true cur next rest view now order (inr refl) (omega arith) in
        let total : length waiting + 1 ≡ suc (length rest) =
          omega (arith, length-append waiting (cur ∷ []), ap length order) in
        let one' : running s'.curthread ≡ 1 = ap running current in
        subst (λ x. Quiet n sem (lands x)) (some-injective _ _ (sym runs ∙ h))
          (record {
            sleeping = q.sleeping;
            waiting = rest;
            sees = sees;
            threads = omega (arith, one, one', total);
            none_lost = rw addrs q.none_lost;
          })

    go :
        (waiting : List ℕ) (cur : ℕ)
        → s.curthread ≡ some cur
        → Sees s q.sleeping waiting
        → length q.sleeping + length waiting + running s.curthread ≤ n
        → Quiet n sem (lands w)
    go [] cur now view few' = behind cur cur [] [] refl now view few'
    go (next ∷ rest) cur now view few' =
        behind cur next (rest ++ (cur ∷ [])) (next ∷ rest) refl now view few'
