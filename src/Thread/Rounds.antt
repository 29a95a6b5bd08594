-- ===== src/Thread/Rounds.antt =====
-- The rounds of `thread_wakeup` of kern/thread/thread.c.
use mathlib.Core.List.{append_assoc}
use native.Mathlib.Numerals.{add-one}
use harvard_os161_operating.Thread.Run.{Runnable}
use harvard_os161_operating.Prelude.{
  ℕ, suc, ◌+◌, ◌≤◌, ◌<◌, ◌≡◌, refl, sym, ap, ◌∙◌, Bool, true, false, some, List, [], ◌∷◌, ◌++◌,
  arith, ◌==◌, length, get_elem?, take, drop, length-append, get_elem?-middle, take-middle,
  drop-middle,
}
use harvard_os161_operating.Array
use harvard_os161_operating.Array.Items.{items, length-items, getnum-eq-length}
use harvard_os161_operating.Array.Access.{getguy_lem, remove_lem}
use harvard_os161_operating.Thread.{System, wakeup_from}
use harvard_os161_operating.Thread.View.{Sees, ptrs, length-ptrs, ptrs-append, on_addr, off_addr}

-- After the loop over `todo`, with `done` behind it.
pub record Woken (mem : Bool) (addr : ℕ) (fuel : ℕ) (s : System) (done todo waiting : List ℕ)
    : Type 0 where
  pub after : System
  pub goes : wakeup_from fuel mem addr (length done) s ≡ some after
  pub sees :
      Sees after (done ++ off_addr s.sleepaddr addr todo) (waiting ++ on_addr s.sleepaddr addr todo)
  pub same_current : after.curthread ≡ s.curthread
  pub same_addr : after.sleepaddr ≡ s.sleepaddr
  pub same_count : after.numthreads ≡ s.numthreads
  pub same_zombies : after.zombies ≡ s.zombies
  pub bigger : s.runqueue.size ≤ after.runqueue.size

module _ {s : System} (done : List ℕ) {waiting : List ℕ} where
  pub num-eq :
      (todo : List ℕ)
      → Sees s (done ++ todo) waiting
      → Array.getnum s.sleepers ≡ length done + length todo
  num-eq todo v =
      getnum-eq-length v.array
      ∙ ap length v.sleeps
      ∙ length-ptrs (done ++ todo)
      ∙ length-append done todo

  pub here :
      (t : ℕ) (ts : List ℕ)
      → Sees s (done ++ (t ∷ ts)) waiting
      → Array.getguy s.sleepers (length done) ≡ some (some t)
  here t ts v =
      getguy_lem (length done) v.array
      ∙ ap (λ l. get_elem? l (length done)) (v.sleeps ∙ ptrs-append done (t ∷ ts))
      ∙ get_elem?-middle (ptrs done) (ptrs ts) (some t) (length done) (sym (length-ptrs done))

  -- Taking the thread at the index out of `sleepers[]`.
  pub taken :
      (t : ℕ) (ts : List ℕ)
      → Sees s (done ++ (t ∷ ts)) waiting
      → (a : Array.Array) × (Array.remove s.sleepers (length done) ≡ some a)
        × Sees (record s { sleepers = a }) (done ++ ts) waiting
  taken t ts v =
      let (a, runs, valid, eq, _, _) = remove_lem (length done) v.array inside in
      (a, runs, record { array = valid; sleeps = eq ∙ closes; runs = v.runs })
    where
      inside : length done < s.sleepers.num
      inside = omega (
        arith,
        length-items v.array,
        ap length v.sleeps,
        length-ptrs (done ++ (t ∷ ts)),
        length-append done (t ∷ ts),
      )

      cells-eq : items s.sleepers ≡ ptrs done ++ (some t ∷ ptrs ts)
      cells-eq = v.sleeps ∙ ptrs-append done (t ∷ ts)

      closes :
          take (length done) (items s.sleepers) ++ drop (length done + 1) (items s.sleepers)
          ≡ ptrs (done ++ ts)
      closes =
          rw
            (
              cells-eq,
              add-one (length done),
              take-middle (ptrs done) (some t ∷ ptrs ts) (length done) (sym (length-ptrs done)),
              drop-middle (ptrs done) (ptrs ts) (some t) (length done) (sym (length-ptrs done)),
              ptrs-append done ts,
            )
            refl

-- A round that leaves the thread where it is.
pub skip :
    {s : System} (fuel : ℕ) (mem : Bool) (addr t : ℕ) (done ts waiting : List ℕ)
    → Sees s (done ++ (t ∷ ts)) waiting
    → (s.sleepaddr t == addr) ≡ false
    → Woken mem addr fuel s (done ++ (t ∷ [])) ts waiting
    → Woken mem addr (suc fuel) s done (t ∷ ts) waiting
unfolding wakeup_from
skip {s} fuel mem addr t done ts waiting v off r = record {
  after = r.after;
  goes =
      let next : length (done ++ (t ∷ [])) ≡ length done + 1 = length-append done (t ∷ []) in
      let rest : wakeup_from fuel mem addr (length done + 1) s ≡ some r.after = rw next at r.goes in
      ground (arith, num-eq done (t ∷ ts) v, here done t ts v);
  sees = rw off (rw (append_assoc done (t ∷ []) (off_addr s.sleepaddr addr ts)) at r.sees);
  same_current = r.same_current;
  same_addr = r.same_addr;
  same_count = r.same_count;
  same_zombies = r.same_zombies;
  bigger = r.bigger;
}

-- A round that makes the thread runnable.
pub wake :
    {s : System} (fuel : ℕ) (mem : Bool) (addr t : ℕ) (done ts waiting : List ℕ) (a : Array.Array)
    → Sees s (done ++ (t ∷ ts)) waiting
    → (s.sleepaddr t == addr) ≡ true
    → Array.remove s.sleepers (length done) ≡ some a
    → (m : Runnable mem (record s { sleepers = a }) (done ++ ts) waiting t)
    → Woken mem addr fuel m.after done ts (waiting ++ (t ∷ []))
    → Woken mem addr (suc fuel) s done (t ∷ ts) waiting
unfolding wakeup_from
wake {s} fuel mem addr t done ts waiting a v on removed m r = record {
  after = r.after;
  goes = ground (arith, num-eq done (t ∷ ts) v, here done t ts v, m.goes, r.goes);
  sees =
      rw on
        (rw (m.same_addr, append_assoc waiting (t ∷ []) (on_addr s.sleepaddr addr ts)) at r.sees);
  same_current = r.same_current ∙ m.same_current;
  same_addr = r.same_addr ∙ m.same_addr;
  same_count = r.same_count ∙ m.same_count;
  same_zombies = r.same_zombies ∙ m.same_zombies;
  bigger = omega (arith, m.bigger, r.bigger);
}
