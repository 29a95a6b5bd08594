-- ===== src/Uio/Tests.antt =====
-- Transfers of kern/userprog/uio.c.
use harvard_os161_operating.Prelude.{
  success, ◌%◌, ◌≡◌, refl, inl, true, none, some, arith, ltb, if◌then◌else◌,
}
use harvard_os161_operating.Memory.{Memory}
use harvard_os161_operating.Uio.{Uio, uiomove, uiomovezeros, mk_kuio}
use harvard_os161_operating.Uio.Zeros.{HasZeros, Cleared, uiomovezeros-Cleared}
use harvard_os161_operating.Uio.Move.{Transferred, Advanced, uiomove_lem}

abbrev bytes : Memory
bytes a = a % 256

-- A read of 6 bytes into a buffer for 4.
uiomove_lem_example :
    (r : Memory) × (after : Uio) × (uiomove none bytes 100 6 (mk_kuio 40 4 0 true)
      ≡ some (success, r, after))
    × Transferred bytes r 100 (mk_kuio 40 4 0 true) 4
    × Advanced (mk_kuio 40 4 0 true) after 4
unfolding mk_kuio
uiomove_lem_example =
    uiomove_lem bytes 100 6 (mk_kuio 40 4 0 true) refl refl (omega arith) (omega arith)
      (omega arith)

-- Zeros up to address 99.
abbrev blank : Memory
blank a = if ltb a 100 then 0 else 7

blank-HasZeros : HasZeros blank 0 200 40
blank-HasZeros = record { zero_bytes = λ i lt. ground arith; apart = inl (omega arith) }

uiomovezeros-Cleared_example :
    Cleared blank 40 (mk_kuio 200 50 0 true) (uiomovezeros none blank 0 40 (mk_kuio 200 50 0 true))
unfolding mk_kuio
uiomovezeros-Cleared_example =
    uiomovezeros-Cleared blank 0 40 (mk_kuio 200 50 0 true) refl refl refl (omega arith)
      (omega arith) (omega arith) blank-HasZeros
