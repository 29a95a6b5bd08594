-- ===== src/Thread/RoundRobin.antt =====
-- `mi_switch` and `scheduler` of kern/thread: who runs next, and where the old thread goes.
use mathlib.Core.List.{head?, tail}
use harvard_os161_operating.Prelude.{
  ℕ, ◌+◌, ◌-◌, ◌%◌, ◌^◌, ◌<◌, ◌≡◌, refl, sym, ap, ◌∙◌, ◌⊎◌, Bool, true, none, some, List, [], ◌∷◌,
  ◌++◌, arith, ◌==◌, if◌then◌else◌, lt→ltb,
}
use harvard_os161_operating.Queue.Write.{empty-nil, not_empty, remhead-Holds}
use harvard_os161_operating.Array.Valid as ArrayValid
use harvard_os161_operating.Array.Items.{Added, items, add-Added}
use harvard_os161_operating.Thread.{
  System, Switch, switched, idles, schedule, stash, mi_switch, thread_yield, update, thread_sleep,
  thread_exit,
}
use harvard_os161_operating.Thread.View.{Sees, ptrs-append, HasRoom, IsSmall}
use harvard_os161_operating.Thread.Run.{Runnable, must_run_lem}

-- The scheduler takes the thread that has waited longest.
pub schedule_next :
    {s : System} {sleeping waiting : List ℕ} (next : ℕ)
    → Sees s sleeping (next ∷ waiting)
    → (s' : System) × (schedule s ≡ some (switched next s'))
      × Sees s' sleeping waiting
      × (s'.curthread ≡ some next)
      × (s'.sleepaddr ≡ s.sleepaddr)
      × (s'.numthreads ≡ s.numthreads)
unfolding schedule
schedule_next {s} {sleeping} {waiting} next v =
    let (runs, rest) = remhead-Holds v.runs in
    (
      record s {
        curthread = some next;
        runqueue = record (s.runqueue) { nextread = (s.runqueue.nextread + 1) % s.runqueue.size };
      },
      rw (not_empty v.runs (omega arith), runs) refl,
      record { array = v.array; sleeps = v.sleeps; runs = rest },
      refl,
      refl,
      refl,
    )

-- With nothing ready it idles.
pub schedule_idle :
    {s : System} {sleeping : List ℕ} → Sees s sleeping [] → schedule s ≡ some (idles s)
unfolding schedule
schedule_idle v = rw (empty-nil v.runs refl) refl

-- Where the scheduler goes with these threads ready.
abbrev pub goes_to : List ℕ → System → Switch
goes_to [] s = idles s
goes_to (next ∷ waiting) s = switched next s

-- With nobody current the first ready thread runs, or the processor idles.
pub schedule-goes_to :
    {s : System} {sleeping : List ℕ} (waiting : List ℕ)
    → Sees s sleeping waiting
    → s.curthread ≡ none
    → (s' : System) × (schedule s ≡ some (goes_to waiting s'))
      × Sees s' sleeping (tail waiting)
      × (s'.curthread ≡ head? waiting)
      × (s'.sleepaddr ≡ s.sleepaddr)
      × (s'.numthreads ≡ s.numthreads)
      × (s'.zombies ≡ s.zombies)
unfolding schedule
schedule-goes_to {s} [] v off = (s, schedule_idle v, v, off, refl, refl, refl)
schedule-goes_to {s} (next ∷ waiting) v off =
    let (runs, rest) = remhead-Holds v.runs in
    (
      record s {
        curthread = some next;
        runqueue = record (s.runqueue) { nextread = (s.runqueue.nextread + 1) % s.runqueue.size };
      },
      rw (not_empty v.runs (omega arith), runs) refl,
      record { array = v.array; sleeps = v.sleeps; runs = rest },
      refl,
      refl,
      refl,
      refl,
    )

-- `thread_yield` is round robin: the thread that yields goes behind all ready ones, and the first
-- of these runs (itself, if none was ready). With room on the run queue no memory is needed. Fewer
-- than 2 ^ 29 - 2 threads are ready.
pub thread_yield_lem :
    {s : System} {sleeping waiting : List ℕ} (mem : Bool) (cur next : ℕ) (rest : List ℕ)
    → Sees s sleeping waiting
    → s.curthread ≡ some cur
    → waiting ++ (cur ∷ []) ≡ next ∷ rest
    → HasRoom mem s waiting 1
    → IsSmall waiting 1
    → (s' : System) × (thread_yield mem s ≡ some (switched next s'))
      × Sees s' sleeping rest
      × (s'.curthread ≡ some next)
      × (s'.sleepaddr ≡ s.sleepaddr)
      × (s'.numthreads ≡ s.numthreads)
unfolding thread_yield mi_switch stash
thread_yield_lem {s} {sleeping} {waiting} mem cur next rest v now order room small =
    let off : System = record s { curthread = none } in
    let v' : Sees off sleeping waiting = record {
      array = v.array;
      sleeps = v.sleeps;
      runs = v.runs;
    } in
    let m : Runnable mem off sleeping waiting cur = must_run_lem mem cur v' room small in
    let (s', runs, sees, current, addr, count) = schedule_next next (rw order at m.sees) in
    (s', rw now (rw m.goes runs), sees, current, addr ∙ m.same_addr, count ∙ m.same_count)

-- `thread_sleep` puts the current thread at the end of `sleepers[]` with its address; the first
-- ready thread runs, or the processor idles. With space on the list no memory is needed. Fewer than
-- 2 ^ 29 - 1 threads sleep.
pub thread_sleep_lem :
    {s : System} {sleeping waiting : List ℕ} (mem : Bool) (addr cur : ℕ)
    → Sees s sleeping waiting
    → s.curthread ≡ some cur
    → (s.sleepers.num < s.sleepers.max) ⊎ (mem ≡ true)
    → s.sleepers.num + 1 < 2 ^ 29
    → (s' : System) × (thread_sleep mem s addr ≡ schedule s')
      × Sees s' (sleeping ++ (cur ∷ [])) waiting
      × ((t : ℕ) → s'.sleepaddr t ≡ (if cur == t then addr else s.sleepaddr t))
      × (s'.curthread ≡ none)
      × (s'.numthreads ≡ s.numthreads)
unfolding thread_sleep mi_switch stash
thread_sleep_lem {s} {sleeping} {waiting} mem addr cur v now room small =
    let a : Added mem s.sleepers cur = add-Added mem cur v.array small room in
    (
      record s { curthread = none; sleepers = a.after; sleepaddr = update s.sleepaddr cur addr },
      rw now (rw a.runs refl),
      record {
        array = a.valid;
        sleeps =
            a.appends
            ∙ ap (λ l. l ++ (some cur ∷ [])) v.sleeps
            ∙ sym (ptrs-append sleeping (cur ∷ []));
        runs = v.runs;
      },
      λ t. refl,
      refl,
      refl,
    )

-- `thread_exit` puts the current thread at the end of `zombies[]`; the first ready thread runs, or
-- the processor idles. With space on the list no memory is needed. Fewer than 2 ^ 29 - 1 threads are
-- dead.
pub thread_exit_lem :
    {s : System} {sleeping waiting : List ℕ} (mem : Bool) (cur : ℕ)
    → Sees s sleeping waiting
    → s.curthread ≡ some cur
    → 0 < s.numthreads
    → ArrayValid.IsValid s.zombies
    → (s.zombies.num < s.zombies.max) ⊎ (mem ≡ true)
    → s.zombies.num + 1 < 2 ^ 29
    → (s' : System) × (thread_exit mem s ≡ schedule s')
      × Sees s' sleeping waiting
      × (items s'.zombies ≡ items s.zombies ++ (some cur ∷ []))
      × (s'.sleepaddr ≡ s.sleepaddr)
      × (s'.numthreads ≡ s.numthreads - 1)
      × (s'.curthread ≡ none)
unfolding thread_exit mi_switch stash
thread_exit_lem {s} {sleeping} {waiting} mem cur v now counted z room small =
    let a : Added mem s.zombies cur = add-Added mem cur z small room in
    (
      record s { curthread = none; zombies = a.after; numthreads = s.numthreads - 1 },
      rw (lt→ltb 0 s.numthreads counted, now) (rw a.runs refl),
      record { array = v.array; sleeps = v.sleeps; runs = v.runs },
      a.appends,
      refl,
      refl,
      refl,
    )

-- With no current thread there is nobody to sleep, and a yield changes nothing.
pub thread_sleep_nobody :
    (mem : Bool) (s : System) (addr : ℕ) → s.curthread ≡ none → thread_sleep mem s addr ≡ none
unfolding thread_sleep
thread_sleep_nobody mem s addr off = rw off refl

pub thread_yield_nobody :
    (mem : Bool) (s : System) → s.curthread ≡ none → thread_yield mem s ≡ some (idles s)
unfolding thread_yield mi_switch
thread_yield_nobody mem s off = rw off refl
