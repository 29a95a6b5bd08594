-- ===== src/Thread/Run.antt =====
-- `make_runnable` puts a thread at the end of the run queue of kern/thread/scheduler.c.
use harvard_os161_operating.Prelude.{
  ℕ, ◌+◌, ◌≤◌, ◌<◌, ◌≡◌, refl, ◌⊎◌, inl, inr, Bool, true, some, List, [], ◌∷◌, ◌++◌, arith, length,
}
use harvard_os161_operating.Queue.Fifo.{Enqueued, addtail-Enqueued}
use harvard_os161_operating.Thread.{System, make_runnable, must_run}
use harvard_os161_operating.Thread.View.{Sees, ptrs, length-ptrs, ptrs-append, HasRoom, IsSmall}

-- Nothing but the run queue differs, and that has not shrunk.
pub record Runnable (mem : Bool) (s : System) (sleeping waiting : List ℕ) (t : ℕ) : Type 0 where
  pub after : System
  pub goes : must_run mem s t ≡ some after
  pub sees : Sees after sleeping (waiting ++ (t ∷ []))
  pub same_current : after.curthread ≡ s.curthread
  pub same_addr : after.sleepaddr ≡ s.sleepaddr
  pub same_count : after.numthreads ≡ s.numthreads
  pub same_zombies : after.zombies ≡ s.zombies
  pub bigger : s.runqueue.size ≤ after.runqueue.size

pub must_run_lem :
    {s : System} {sleeping waiting : List ℕ} (mem : Bool) (t : ℕ)
    → Sees s sleeping waiting
    → HasRoom mem s waiting 1
    → IsSmall waiting 1
    → Runnable mem s sleeping waiting t
unfolding must_run make_runnable
must_run_lem {s} {sleeping} {waiting} mem t v room small =
    let a : Enqueued mem s.runqueue (ptrs waiting) t =
      addtail-Enqueued mem t v.runs (omega (arith, length-ptrs waiting)) (enough room) in
    record {
      after = record s { runqueue = a.after };
      goes = rw a.runs refl;
      sees = record {
        array = v.array;
        sleeps = v.sleeps;
        runs = rw (ptrs-append waiting (t ∷ [])) a.holds;
      };
      same_current = refl;
      same_addr = refl;
      same_count = refl;
      same_zombies = refl;
      bigger = a.keeps;
    }
  where
    enough : HasRoom mem s waiting 1 → (length (ptrs waiting) + 1 < s.runqueue.size) ⊎ (mem ≡ true)
    enough (inl fits) = inl (omega (arith, length-ptrs waiting))
    enough (inr memory) = inr memory
