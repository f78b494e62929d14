-- ===== src/Tests/Opcodes.antt =====
-- Runs of, and witnesses about, Core/src/Opcodes.c.
use multicore_proccessor.Common.{ℕ, ◌<◌, ◌≤◌, ◌≡◌, ◌↔◌, ◌⊎◌, refl, none, some, arith}
use multicore_proccessor.Opcodes.{
  Params, dispatch, branch_equal, branch_not_equal, branch_less_then, branch_greater_than,
  branch_less_equal, branch_grater_equal, sub, arithmetic_shift_right, logic_shift_right,
}
use multicore_proccessor.Opcodes.Code
use multicore_proccessor.Opcodes.Arithmetic.{IsWordResult, dispatch-IsWordResult, dispatch-eq-none}
use multicore_proccessor.Opcodes.Shift.{IsFloor, arithmetic_shift_right-IsFloor}
use multicore_proccessor.Opcodes.Branch.{OneTaken, branches_opposite}

abbrev operands : Params
operands = record { rd = 700; rs = 0x8000_0000; rt = 4; pc = 9 }

sub_wraps :
    dispatch Code.sub (record operands { rs = 3 })
    ≡ some (record operands { rs = 3; rd = 0xffff_ffff })
unfolding dispatch sub
sub_wraps = refl

sra_fills : dispatch Code.sra operands ≡ some (record operands { rd = 0xf800_0000 })
unfolding dispatch arithmetic_shift_right
sra_fills = refl

srl_clears : dispatch Code.srl operands ≡ some (record operands { rd = 0x0800_0000 })
unfolding dispatch logic_shift_right
srl_clears = refl

-- 700 is cut to nine bits.
branch_target_is_cut : dispatch Code.bne operands ≡ some (record operands { pc = 188 })
unfolding dispatch branch_not_equal
branch_target_is_cut = refl

dispatch-IsWordResult_example : IsWordResult operands (record operands { rd = 0xf800_0000 })
dispatch-IsWordResult_example =
    dispatch-IsWordResult Code.sra operands (omega arith) (omega arith) (omega arith) sra_fills

dispatch-eq-none_example :
    (dispatch Code.sll (record operands { rt = 40 }) ≡ none)
    ↔ (((Code.sll ≤ Code.sll) × (Code.sll ≤ Code.srl) × (32 ≤ 40)) ⊎ (Code.lw ≤ Code.sll))
dispatch-eq-none_example = dispatch-eq-none Code.sll (record operands { rt = 40 })

branches_opposite_example :
    OneTaken operands (branch_equal operands) (branch_not_equal operands)
    × OneTaken operands (branch_less_then operands) (branch_grater_equal operands)
    × OneTaken operands (branch_greater_than operands) (branch_less_equal operands)
branches_opposite_example = branches_opposite operands

arithmetic_shift_right-IsFloor_example :
    ((4 < 32)
      × (r : ℕ) × (arithmetic_shift_right operands ≡ some (record operands { rd = r }))
      × IsFloor 0x8000_0000 4 r)
    ⊎ ((32 ≤ 4) × (arithmetic_shift_right operands ≡ none))
arithmetic_shift_right-IsFloor_example = arithmetic_shift_right-IsFloor operands (omega arith)
