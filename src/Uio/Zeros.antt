-- ===== src/Uio/Zeros.antt =====
-- `uiomovezeros` of kern/userprog/uio.c.
use mathlib.Core.Path.{subst}
use harvard_os161_operating.Prelude.{
  Status, success, ◌>>◌, guard, ℕ, zero, suc, ◌+◌, ◌-◌, ◌%◌, ◌^◌, ◌≤◌, ◌<◌, ◌≡◌, refl, sym, ap, ◌∙◌,
  ◌⊎◌, true, false, ◌&&◌, Option, none, some, arith, dec_lt, ltb, leb, if◌then◌else◌, lt→ltb,
  le→ltb,
}
use harvard_os161_operating.Memory.{Memory}
use harvard_os161_operating.Memory.Move.{Moved}
use harvard_os161_operating.Uio.{Uio, advance, uiomove, zeros_size, uiomovezeros_from, uiomovezeros}
use harvard_os161_operating.Uio.Move.{transfer_size, uiomove_runs}

-- `size` zeros were written at `dst`, and nothing else.
abbrev pub Zeroed : Memory → Memory → ℕ → ℕ → Type 0
Zeroed m r dst size = (a : ℕ) → r a ≡ (if leb dst a && ltb a (dst + size) then 0 else m a)

-- The buffer at `zbuf` holds zeros, and is not where they go.
pub record HasZeros (m : Memory) (zbuf dst size : ℕ) : Type 0 where
  pub zero_bytes : (i : ℕ) → i < 16 → m (zbuf + i) ≡ 0
  pub apart : (zbuf + 16 ≤ dst) ⊎ (dst + size ≤ zbuf)

-- What `uiomovezeros` leaves where `n` bytes fit.
pub record Cleared (m : Memory) (n : ℕ) (uio : Uio) (o : Option (Status × Memory × Uio))
    : Type 0 where
  pub memory : Memory
  pub after : Uio
  pub runs : o ≡ some (success, memory, after)
  pub bytes : Zeroed m memory uio.base n
  pub at_base : after.base ≡ uio.base + n
  pub at_offset : after.offset ≡ (uio.offset + n) % 2 ^ 32
  pub left : after.resid ≡ uio.resid - n

-- A round, and the rest.
round-Zeroed :
    (m r r' : Memory) (dst zbuf amt n : ℕ)
    → amt ≤ n
    → amt ≤ 16
    → HasZeros m zbuf dst n
    → Moved m r dst zbuf amt
    → Zeroed r r' (dst + amt) (n - amt)
    → Zeroed m r' dst n
round-Zeroed m r r' dst zbuf amt n fits small z moved rest a =
    let zero_byte = z.zero_bytes (a - dst) in ground (arith, rest a, moved a, zero_byte)

rest-HasZeros :
    (m r : Memory) (dst zbuf amt n : ℕ)
    → amt ≤ n
    → HasZeros m zbuf dst n
    → Moved m r dst zbuf amt
    → HasZeros r zbuf (dst + amt) (n - amt)
rest-HasZeros m r dst zbuf amt n fits z moved = record {
  zero_bytes = λ i lt. ground (arith, moved (zbuf + i), z.zero_bytes i lt, z.apart);
  apart = ground (arith, z.apart);
}

nothing-Cleared :
    (m : Memory) (n : ℕ) (uio : Uio)
    → n ≡ 0
    → uio.offset < 2 ^ 32
    → Cleared m n uio (some (success, m, uio))
nothing-Cleared m n uio none_left word = record {
  memory = m;
  after = uio;
  runs = refl;
  bytes = λ a. ground (arith, none_left);
  at_base = omega arith;
  at_offset = omega arith;
  left = omega arith;
}

-- One call of `uiomove`.
one_round :
    (m : Memory) (zbuf amt : ℕ) (uio : Uio)
    → uio.is_user ≡ false
    → uio.is_read ≡ true
    → uio.iov_len ≡ uio.resid
    → amt ≤ uio.resid
    → uio.resid < 2 ^ 32
    → 0 < amt
    → (r : Memory) × (uiomove none m zbuf amt uio ≡ some (success, r, advance amt uio))
      × Moved m r uio.base zbuf amt
one_round m zbuf amt uio kernel reads exact fits small some_bytes =
    let whole : transfer_size amt uio ≡ amt = ground (arith, fits) in
    let (r, moves, moved) =
      uiomove_runs m zbuf amt uio kernel exact (omega arith) small some_bytes in
    (
      r,
      moves ∙ ap (λ k. some (success, r, advance k uio)) whole,
      subst (λ k. Moved m r uio.base zbuf k) whole
          (subst
            (λ b.
              Moved m r (if b then uio.base else zbuf) (if b then zbuf else uio.base)
                (transfer_size amt uio))
            reads moved),
    )

uiomovezeros_from-Cleared :
    (fuel : ℕ) (m : Memory) (zbuf n : ℕ) (uio : Uio)
    → n ≤ fuel
    → uio.is_user ≡ false
    → uio.is_read ≡ true
    → uio.iov_len ≡ uio.resid
    → n ≤ uio.resid
    → uio.resid < 2 ^ 32
    → uio.offset < 2 ^ 32
    → HasZeros m zbuf uio.base n
    → Cleared m n uio (uiomovezeros_from fuel none m zbuf n uio)
unfolding uiomovezeros_from advance
uiomovezeros_from-Cleared zero m zbuf n uio enough kernel reads exact fits small word z =
    rw (uiomovezeros_from, le→ltb 0 n enough) (nothing-Cleared m n uio (omega arith) word)
uiomovezeros_from-Cleared (suc fuel) m zbuf n uio enough kernel reads exact fits small word z =
    elim (dec_lt 0 n) [
      | no none_left ↦
          rw (uiomovezeros_from, le→ltb 0 n (omega arith))
            (nothing-Cleared m n uio (omega arith) word)
      | yes more ↦
          let amt : ℕ = zeros_size n in
          let part : amt ≤ n = ground arith in
          let some_bytes : 0 < amt = ground (arith, more) in
          let (r, moves, moved) =
            one_round m zbuf amt uio kernel reads exact (omega (arith, part, fits)) small
              (ground (arith, more)) in
          let left : (advance amt uio).resid ≡ uio.resid - amt = omega (arith, part, fits) in
          let rest =
            uiomovezeros_from-Cleared fuel r zbuf (n - amt) (advance amt uio)
              (omega (arith, some_bytes, enough)) kernel reads (omega (arith, left, exact))
              (omega (arith, left, fits)) (omega (arith, left)) (omega arith)
              (rest-HasZeros m r uio.base zbuf amt n part z moved) in
          rw (uiomovezeros_from, lt→ltb 0 n more, moves)
            (record {
              memory = rest.memory;
              after = rest.after;
              runs = rest.runs;
              bytes =
                  round-Zeroed m r rest.memory uio.base zbuf amt n part (ground arith) z moved
                    rest.bytes;
              at_base = omega (arith, rest.at_base, part);
              at_offset = omega (arith, rest.at_offset, part);
              left = omega (arith, rest.left, left, part);
            })
    ]

-- `uiomovezeros`, where a kernel `uio` for reading has room for as many bytes as it says and `n` are
-- no more, and the buffer of zeros lies elsewhere, does not panic and returns 0: `n` zeros are
-- written and no other byte changes; the address in the `uio` is higher by `n`, the count of bytes
-- left lower by `n`, and the offset has grown by `n` modulo 2^32, of which it is a remainder before.
pub uiomovezeros-Cleared :
    (m : Memory) (zbuf n : ℕ) (uio : Uio)
    → uio.is_user ≡ false
    → uio.is_read ≡ true
    → uio.iov_len ≡ uio.resid
    → n ≤ uio.resid
    → uio.resid < 2 ^ 32
    → uio.offset < 2 ^ 32
    → HasZeros m zbuf uio.base n
    → Cleared m n uio (uiomovezeros none m zbuf n uio)
unfolding uiomovezeros
uiomovezeros-Cleared m zbuf n uio kernel reads exact fits small word z =
    subst (λ b. Cleared m n uio (guard b >> uiomovezeros_from n none m zbuf n uio)) (sym reads)
      (uiomovezeros_from-Cleared n m zbuf n uio (omega arith) kernel reads exact fits small word z)
