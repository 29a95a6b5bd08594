-- ===== src/Copyinout/Tests.antt =====
-- Runs of kern/lib/copyinout.c, and the theorems at concrete inputs.
use harvard_os161_operating.Prelude.{
  success, efault, ◌≡◌, refl, inr, ◌||◌, none, some, arith, ◌==◌, if◌then◌else◌,
}
use harvard_os161_operating.Memory.{Memory}
use harvard_os161_operating.Memory.Move.{Moved}
use harvard_os161_operating.Strings.Length.{IsString}
use harvard_os161_operating.Copyinout.{copycheck, copyin, copyout, copyinstr}
use harvard_os161_operating.Copyinout.Blocks.{copyin-copyout_lem}
use harvard_os161_operating.Copyinout.Text.{copyinstr_lem}

-- "hi" at the top of user memory, and at an address of the kernel.
abbrev both : Memory
both a =
    if a == 0x7ffffff0 || a == 0x80001000
    then 104
    else if a == 0x7ffffff1 || a == 0x80001001
    then 105
    else 0

below_top : IsString both 0x7ffffff0 2
below_top = record { chars = λ k lt. ground arith; ends = refl }

in_kernel : IsString both 0x80001000 2
in_kernel = record { chars = λ k lt. ground arith; ends = refl }

cut_at_top : copycheck 0x7ffffff0 100 ≡ some 16
unfolding copycheck
cut_at_top = refl

copyin-copyout_lem_example :
    (copyin none both 0x7ffffff0 0x80002000 17 ≡ (efault, both))
    × (copyout none both 0x80002000 0x7ffffff0 17 ≡ (efault, both))
copyin-copyout_lem_example =
    copyin-copyout_lem both 0x7ffffff0 0x80002000 17 (omega arith) (omega arith) (omega arith)

copyinstr_lem_example :
    (r : Memory) × (copyinstr none both 0x7ffffff0 0x80002000 100 ≡ (success, some 3, r))
    × Moved both r 0x80002000 0x7ffffff0 3
copyinstr_lem_example =
    copyinstr_lem both 0x7ffffff0 0x80002000 100 2 below_top (inr (omega arith)) (omega arith)
      (omega arith) (omega arith)
