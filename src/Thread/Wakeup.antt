-- ===== src/Thread/Wakeup.antt =====
-- `thread_wakeup` of kern/thread/thread.c makes exactly the threads on an address runnable.
use mathlib.Core.List.{append-nil, append_assoc}
use harvard_os161_operating.Thread.Run.{Runnable, must_run_lem}
use harvard_os161_operating.Prelude.{
  ℕ, zero, suc, ◌≤◌, ◌≡◌, refl, inl, inr, Bool, true, false, some, List, [], ◌∷◌, ◌++◌, arith, ◌==◌,
  le→ltb, Bool-cases, length, length-append,
}
use harvard_os161_operating.Array
use harvard_os161_operating.Thread.{System, wakeup_from, thread_wakeup}
use harvard_os161_operating.Thread.Rounds.{Woken, num-eq, taken, skip, wake}
use harvard_os161_operating.Thread.View.{Sees, on_addr, off_addr, HasRoom, IsSmall}

-- What room there is for the threads of the whole list serves one round and the rest.
room_on :
    (s s' : System) (mem : Bool) (addr t : ℕ) (ts waiting : List ℕ)
    → HasRoom mem s waiting (length (on_addr s.sleepaddr addr (t ∷ ts)))
    → (s.sleepaddr t == addr) ≡ true
    → s'.sleepaddr ≡ s.sleepaddr
    → s.runqueue.size ≤ s'.runqueue.size
    → HasRoom mem s' (waiting ++ (t ∷ [])) (length (on_addr s'.sleepaddr addr ts))
room_on s s' mem addr t ts waiting (inl fits) on same more =
    inl (rw same (ground (arith, length-append waiting (t ∷ []))))
room_on s s' mem addr t ts waiting (inr memory) on same more = inr memory

room_now :
    (s : System) (mem : Bool) (addr t : ℕ) (ts waiting : List ℕ)
    → HasRoom mem s waiting (length (on_addr s.sleepaddr addr (t ∷ ts)))
    → (s.sleepaddr t == addr) ≡ true
    → HasRoom mem s waiting 1
room_now s mem addr t ts waiting (inl fits) on = inl (ground arith)
room_now s mem addr t ts waiting (inr memory) on = inr memory

room_off :
    (s : System) (mem : Bool) (addr t : ℕ) (ts waiting : List ℕ)
    → HasRoom mem s waiting (length (on_addr s.sleepaddr addr (t ∷ ts)))
    → (s.sleepaddr t == addr) ≡ false
    → HasRoom mem s waiting (length (on_addr s.sleepaddr addr ts))
room_off s mem addr t ts waiting (inl fits) off = inl (ground arith)
room_off s mem addr t ts waiting (inr memory) off = inr memory

fits_one : (t : ℕ) (ts waiting : List ℕ) → IsSmall waiting (length (t ∷ ts)) → IsSmall waiting 1
fits_one t ts waiting h = omega arith

fits_off :
    (t : ℕ) (ts waiting : List ℕ) → IsSmall waiting (length (t ∷ ts)) → IsSmall waiting (length ts)
fits_off t ts waiting h = omega arith

fits_rest :
    (t : ℕ) (ts waiting : List ℕ)
    → IsSmall waiting (length (t ∷ ts))
    → IsSmall (waiting ++ (t ∷ [])) (length ts)
fits_rest t ts waiting h = omega (arith, length-append waiting (t ∷ []))

wakeup_from-Woken :
    (todo : List ℕ) (fuel : ℕ) {s : System} (mem : Bool) (addr : ℕ) (done waiting : List ℕ)
    → length todo ≤ fuel
    → Sees s (done ++ todo) waiting
    → HasRoom mem s waiting (length (on_addr s.sleepaddr addr todo))
    → IsSmall waiting (length todo)
    → Woken mem addr fuel s done todo waiting
unfolding wakeup_from
wakeup_from-Woken [] zero {s} mem addr done waiting enough v room small = record {
  after = s;
  goes = rw (le→ltb (length done) (Array.getnum s.sleepers) (omega (arith, num-eq done [] v))) refl;
  sees = rw (append-nil done, append-nil waiting) (rw (append-nil done) at v);
  same_current = refl;
  same_addr = refl;
  same_count = refl;
  same_zombies = refl;
  bigger = omega arith;
}
wakeup_from-Woken [] (suc fuel) {s} mem addr done waiting enough v room small = record {
  after = s;
  goes =
      rw
        (
          le→ltb (length done) (Array.getnum s.sleepers) (omega (arith, num-eq done [] v)),
          wakeup_from,
        )
        refl;
  sees = rw (append-nil done, append-nil waiting) (rw (append-nil done) at v);
  same_current = refl;
  same_addr = refl;
  same_count = refl;
  same_zombies = refl;
  bigger = omega arith;
}
wakeup_from-Woken (t ∷ ts) zero mem addr done waiting enough v room small = absurd (omega arith)
wakeup_from-Woken (t ∷ ts) (suc fuel) {s} mem addr done waiting enough v room small =
    elim (Bool-cases (s.sleepaddr t == addr)) [
      | inl on ↦
          let (a, removed, v') = taken done t ts v in
          let m : Runnable mem (record s { sleepers = a }) (done ++ ts) waiting t =
            must_run_lem mem t v' (room_now s mem addr t ts waiting room on)
              (fits_one t ts waiting small) in
          wake fuel mem addr t done ts waiting a v on removed m (
            wakeup_from-Woken ts fuel mem addr done (waiting ++ (t ∷ [])) (omega arith) m.sees
              (room_on s m.after mem addr t ts waiting room on m.same_addr m.bigger)
              (fits_rest t ts waiting small))
      | inr off ↦ skip fuel mem addr t done ts waiting v off (
          wakeup_from-Woken ts fuel mem addr (done ++ (t ∷ [])) waiting (omega arith)
            (rw (append_assoc done (t ∷ []) ts) v) (room_off s mem addr t ts waiting room off)
            (fits_off t ts waiting small))
    ]

-- The whole loop of `thread_wakeup`.
pub wakeup_loop-Woken :
    {s : System} {sleeping waiting : List ℕ} (mem : Bool) (addr : ℕ)
    → Sees s sleeping waiting
    → HasRoom mem s waiting (length (on_addr s.sleepaddr addr sleeping))
    → IsSmall waiting (length sleeping)
    → Woken mem addr (Array.getnum s.sleepers) s [] sleeping waiting
wakeup_loop-Woken {s} {sleeping} {waiting} mem addr v room small =
    wakeup_from-Woken sleeping (Array.getnum s.sleepers) mem addr [] waiting
      (omega (arith, num-eq [] sleeping v)) v room small

pub wakeup_loop-runs :
    {s : System} {sleeping waiting : List ℕ} {mem : Bool} {addr : ℕ}
    → (w : Woken mem addr (Array.getnum s.sleepers) s [] sleeping waiting)
    → thread_wakeup mem addr s ≡ some w.after
unfolding thread_wakeup
wakeup_loop-runs w = w.goes

-- `thread_wakeup` takes all threads that sleep on the address off `sleepers[]`, leaves the others in
-- their order, and puts the woken ones behind the ready ones in the order in which they slept. If
-- the run queue has room for them no memory is needed. The lists agree with the structures, and
-- hold fewer than 2 ^ 29 - 1 threads.
pub thread_wakeup_lem :
    {s : System} {sleeping waiting : List ℕ} (mem : Bool) (addr : ℕ)
    → Sees s sleeping waiting
    → HasRoom mem s waiting (length (on_addr s.sleepaddr addr sleeping))
    → IsSmall waiting (length sleeping)
    → (s' : System) × (thread_wakeup mem addr s ≡ some s')
      × Sees s' (off_addr s.sleepaddr addr sleeping) (waiting ++ on_addr s.sleepaddr addr sleeping)
      × (s'.curthread ≡ s.curthread)
      × (s'.numthreads ≡ s.numthreads)
      × (s'.sleepaddr ≡ s.sleepaddr)
unfolding thread_wakeup
thread_wakeup_lem {s} {sleeping} {waiting} mem addr v room small =
    let w = wakeup_loop-Woken mem addr v room small in
    (w.after, w.goes, w.sees, w.same_current, w.same_count, w.same_addr)
