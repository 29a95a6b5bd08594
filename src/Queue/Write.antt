-- ===== src/Queue/Write.antt =====
-- Writing at the tail and reading at the head of a queue of kern/lib/queue.c, without growing.
use Prim.Native.Nat.{zero-le}
use harvard_os161_operating.Prelude.{
  success, ℕ, suc, ◌+◌, ◌%◌, ◌≤◌, ◌<◌, ◌≡◌, refl, sym, ap, ◌∙◌, ◌≢◌, true, false, Option, none,
  some, List, [], ◌∷◌, ◌++◌, arith, dec_lt, ◌==◌, lt→ltb, eq→==, ne→==, length, get_elem?, set,
  length-append, length-set, get_elem?-set_self, get_elem?-set_ne, get_elem?-append_lt,
  get_elem?-append_end,
}
use harvard_os161_operating.Queue.{Queue, is_empty, step, write_tail, remhead}
use harvard_os161_operating.Queue.Holds.{
  Holds, position_cases, position_ne, position_step, step_position,
}

-- The queue after `write_tail`.
abbrev pub appended : Queue → Option ℕ → Queue
appended q c = record q { cells = set q.cells q.nextwrite c; nextwrite = step q.size q.nextwrite }

module _ {q : Queue} {xs : List (Option ℕ)} (h : Holds q xs) (c : Option ℕ) where
  pub writes-lt : q.nextwrite < q.size
  writes-lt = omega (arith, h.writes, h.room)

  pub write_tail-runs : write_tail q c ≡ some (success, appended q c)
  unfolding write_tail
  write_tail-runs =
      rw (lt→ltb q.nextwrite (length q.cells) (omega (arith, writes-lt, h.block))) refl

  appended-at :
      (k : ℕ)
      → k < length (xs ++ (c ∷ []))
      → get_elem? (set q.cells q.nextwrite c) ((q.nextread + k) % q.size)
        ≡ get_elem? (xs ++ (c ∷ [])) k
  appended-at k lt = elim (dec_lt k (length xs)) [
    | yes old ↦
        let apart : q.nextwrite ≢ (q.nextread + k) % q.size =
          λ e. position_ne q.size q.nextread k (length xs) h.reads old h.room (sym e ∙ h.writes) in
        get_elem?-set_ne q.cells q.nextwrite ((q.nextread + k) % q.size) c apart
        ∙ h.at k old
        ∙ sym (get_elem?-append_lt xs (c ∷ []) k old)
    | no new ↦
        let last : k ≡ length xs = omega (arith, length-append xs (c ∷ [])) in
        let here : (q.nextread + k) % q.size ≡ q.nextwrite = rw last (sym h.writes) in
        ap (get_elem? (set q.cells q.nextwrite c)) here
        ∙ get_elem?-set_self q.cells q.nextwrite c (omega (arith, writes-lt, h.block))
        ∙ sym (get_elem?-append_end xs c k last)
  ]

  -- With room for one more, the tail gets the new pointer.
  pub appended-Holds : length xs + 1 < q.size → Holds (appended q c) (xs ++ (c ∷ []))
  appended-Holds more = record {
    room = omega (arith, length-append xs (c ∷ []));
    small = h.small;
    block = length-set q.cells q.nextwrite c ∙ h.block;
    reads = h.reads;
    writes = next;
    at = appended-at;
  }
    where
      grown : suc (length xs) ≡ length (xs ++ (c ∷ []))
      grown = omega (arith, length-append xs (c ∷ []))

      next : step q.size q.nextwrite ≡ (q.nextread + length (xs ++ (c ∷ []))) % q.size
      next =
          ap (λ w. (w + 1) % q.size) h.writes
          ∙ step_position q.size q.nextread (length xs) (omega arith)
          ∙ ap (λ k. (q.nextread + k) % q.size) grown

module _ {q : Queue} {xs : List (Option ℕ)} (h : Holds q xs) where
  next-eq : step q.size q.nextwrite ≡ (q.nextread + suc (length xs)) % q.size
  next-eq =
      ap (λ w. (w + 1) % q.size) h.writes
      ∙ step_position q.size q.nextread (length xs) (omega arith)

  -- The test of `q_addtail` tells whether one cell only is unused.
  pub not_full : length xs + 1 < q.size → (step q.size q.nextwrite == q.nextread) ≡ false
  not_full more = ne→== _ _ (
      omega
        (arith, next-eq, position_cases q.size q.nextread (suc (length xs)) h.reads (omega arith)))

  pub full : q.size ≤ length xs + 1 → (step q.size q.nextwrite == q.nextread) ≡ true
  full most = eq→== _ _ (
      omega (
        arith,
        h.room,
        h.reads,
        next-eq,
        position_cases q.size q.nextread (suc (length xs)) h.reads h.room,
      ))

  -- The test of `q_empty`.
  pub empty-nil : length xs ≡ 0 → is_empty q ≡ true
  unfolding is_empty
  empty-nil none_left = eq→== _ _ (
      omega (
        arith,
        h.writes,
        position_cases q.size q.nextread (length xs) h.reads (omega (arith, h.room)),
      ))

  pub not_empty : 0 < length xs → is_empty q ≡ false
  unfolding is_empty
  not_empty some_left = ne→== _ _ (
      omega (
        arith,
        h.room,
        h.writes,
        position_cases q.size q.nextread (length xs) h.reads (omega (arith, h.room)),
      ))

-- Taking the head away leaves the rest.
pub remhead-Holds :
    {q : Queue} {x : Option ℕ} {xs : List (Option ℕ)}
    → Holds q (x ∷ xs)
    → (remhead q ≡ some (x, record q { nextread = step q.size q.nextread }))
      × Holds (record q { nextread = step q.size q.nextread }) xs
unfolding remhead
remhead-Holds {q} {x} {xs} h = (
  runs,
  record {
    room = omega (arith, h.room);
    small = h.small;
    block = h.block;
    reads = omega (arith, h.reads);
    writes = h.writes ∙ position_step q.size q.nextread (length xs) (omega (arith, h.reads));
    at = λ k lt.
        ap (get_elem? q.cells) (sym (position_step q.size q.nextread k (omega (arith, h.reads))))
        ∙ h.at (suc k) (omega arith);
  },
)
  where
    head : get_elem? q.cells q.nextread ≡ some x
    head =
        let here : (q.nextread + 0) % q.size ≡ q.nextread =
          omega (arith, h.reads, position_cases q.size q.nextread 0 h.reads zero-le) in
        ap (get_elem? q.cells) (sym here) ∙ h.at 0 (omega arith)

    runs : remhead q ≡ some (x, record q { nextread = step q.size q.nextread })
    runs = rw (lt→ltb 0 q.size (omega (arith, h.reads)), not_empty h (omega arith), head) refl

-- On an empty queue `q_remhead` fails its assertion.
pub remhead_empty : {q : Queue} → Holds q [] → remhead q ≡ none
unfolding remhead
remhead_empty {q} h = rw (lt→ltb 0 q.size (omega (arith, h.room)), empty-nil h refl) refl
