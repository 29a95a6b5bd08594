-- ===== src/Copyinout/Blocks.antt =====
-- `copyin` and `copyout` of kern/lib/copyinout.c.
use harvard_os161_operating.Prelude.{
  success, efault, ℕ, ◌+◌, ◌^◌, ◌<◌, ◌≡◌, refl, Option, none, arith, leb, if◌then◌else◌,
}
use harvard_os161_operating.Memory.{Memory, memcpy}
use harvard_os161_operating.Copyinout.{user_top, copycheck, guarded, whole_block, copyin, copyout}
use harvard_os161_operating.Copyinout.Check.{copycheck_lem, copycheck_empty}

-- A block that is not empty is whole exactly if it ends in user memory.
whole :
    (userptr len : ℕ)
    → userptr < 2 ^ 32
    → len < 2 ^ 32
    → 0 < len
    → whole_block (copycheck userptr len) len ≡ leb (userptr + len) user_top
unfolding whole_block
whole userptr len a b pos = rw (copycheck_lem userptr len a b pos) (ground arith)

-- `copyin` and `copyout` of a block that is not empty, where no access faults: a block in user
-- memory is copied and 0 returned, and any other is refused with EFAULT before memory is touched.
pub copyin-copyout_lem :
    (m : Memory) (user kernel len : ℕ)
    → user < 2 ^ 32
    → len < 2 ^ 32
    → 0 < len
    → (copyin none m user kernel len
        ≡ (if leb (user + len) user_top then (success, memcpy m kernel user len) else (efault, m)))
      × (copyout none m kernel user len ≡ (
          if leb (user + len) user_top then (success, memcpy m user kernel len) else (efault, m)))
unfolding copyin copyout guarded
copyin-copyout_lem m user kernel len a b pos =
    (rw (whole user len a b pos) refl, rw (whole user len a b pos) refl)

-- A block of length 0 is refused with EFAULT at every user address, and nothing is changed.
pub copyin_empty :
    (fault : Option Memory) (m : Memory) (user kernel : ℕ)
    → user < 2 ^ 32
    → (copyin fault m user kernel 0 ≡ (efault, m)) × (copyout fault m kernel user 0 ≡ (efault, m))
unfolding copyin copyout
copyin_empty fault m user kernel a =
    (rw (copycheck_empty user a) refl, rw (copycheck_empty user a) refl)
