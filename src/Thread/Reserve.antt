-- ===== src/Thread/Reserve.antt =====
-- What kern/thread/thread.c and kern/thread/scheduler.c reserve beforehand, and where that is not
-- enough for the assertions that rely on it.
use harvard_os161_operating.Prelude.{
  success, enomem, ℕ, ◌+◌, ◌^◌, ◌<◌, ◌≡◌, refl, inl, inr, false, none, some, List, arith, ltb,
  Bool-cases, length,
}
use harvard_os161_operating.Array.Valid as ArrayValid
use harvard_os161_operating.Array.Items.{add_enomem, emptied, setsize_zero, emptied-IsValid}
use harvard_os161_operating.Queue.Fifo.{addtail_enomem, preallocate_same}
use harvard_os161_operating.Queue
use harvard_os161_operating.Array
use harvard_os161_operating.Thread.View.{Sees, length-ptrs}
use harvard_os161_operating.Thread.{
  System, make_runnable, must_run, stash, mi_switch, thread_yield, thread_exit, no_current,
  exorcise, reserve_runqueue,
}

-- `scheduler_preallocate(n)` returns 0 without memory where the run queue has `n` cells. If `n - 1`
-- threads wait there, the `n`-th is refused without memory, and a thread that yields stops the
-- kernel.
pub reserve_short :
    {s : System} {sleeping waiting : List ℕ} (t : ℕ)
    → Sees s sleeping waiting
    → length waiting + 1 ≡ s.runqueue.size
    → length waiting + 2 < 2 ^ 29
    → s.curthread ≡ some t
    → (reserve_runqueue false s s.runqueue.size ≡ some (success, s))
      × (make_runnable false s t ≡ some (enomem, s))
      × (thread_yield false s ≡ none)
unfolding reserve_runqueue make_runnable thread_yield mi_switch stash must_run
reserve_short {s} {sleeping} {waiting} t v full small now =
    let refused : Queue.addtail false s.runqueue t ≡ some (enomem, s.runqueue) =
      addtail_enomem t v.runs (omega (arith, length-ptrs waiting))
        (omega (arith, length-ptrs waiting)) in
    (rw (preallocate_same false v.runs) refl, rw refused refl, rw now (rw refused refl))

-- `exorcise` drops a zombie list of more than 16 cells. If the thread that runs exits then, and
-- there is no memory, the kernel stops.
pub exorcise_drops :
    (s : System) (t : ℕ)
    → ArrayValid.IsValid s.zombies
    → 16 < s.zombies.max
    → no_current (Array.getnum s.zombies) 0 s ≡ some tt
    → s.curthread ≡ some t
    → (s' : System) × (exorcise s ≡ some s') × (s'.zombies.max ≡ 0) × (thread_exit false s' ≡ none)
unfolding exorcise thread_exit mi_switch stash
exorcise_drops s t v big others now =
    let refused : Array.add false emptied t ≡ some (enomem, emptied) =
      add_enomem t emptied-IsValid (omega arith) (omega arith) in
    (
      record s { zombies = emptied },
      rw (others, setsize_zero false v big) refl,
      refl,
      elim (Bool-cases (ltb 0 s.numthreads)) [
        | inl counted ↦ rw counted (rw now (rw refused refl))
        | inr none_left ↦ rw none_left refl
      ],
    )
