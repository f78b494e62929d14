-- ===== src/Opcodes/Branch.antt =====
-- Proofs about the branches of Core/src/Opcodes.c.
use multicore_proccessor.Common.{◌<◌, ◌≡◌, ◌⊎◌, Option, some, arith}
use multicore_proccessor.Opcodes.{
  Params, target, branch_equal, branch_not_equal, branch_less_then, branch_greater_than,
  branch_less_equal, branch_grater_equal, jump_and_link,
}

-- One of two branches goes to the target, the other goes on.
abbrev pub OneTaken : Params → Option Params → Option Params → Type 0
OneTaken p a b =
    ((a ≡ some (record p { pc = target p.rd })) × (b ≡ some p))
    ⊎ ((a ≡ some p) × (b ≡ some (record p { pc = target p.rd })))

-- BEQ and BNE, BLT and BGE, BGT and BLE are opposites: on any operands one of the two is taken and
-- the other is not, and nothing but the program counter changes.
pub branches_opposite :
    (p : Params)
    → OneTaken p (branch_equal p) (branch_not_equal p)
      × OneTaken p (branch_less_then p) (branch_grater_equal p)
      × OneTaken p (branch_greater_than p) (branch_less_equal p)
unfolding branch_equal branch_not_equal branch_less_then branch_greater_than branch_less_equal
    branch_grater_equal
branches_opposite p = ground arith

-- JAL at a program counter below 512 does not jump: it leaves the program counter as it is, and links
-- it in `rd`, whatever target `rd` held.
jump_and_link-ignores_rd :
    (p : Params) → p.pc < 512 → jump_and_link p ≡ some (record p { rd = p.pc })
unfolding jump_and_link
jump_and_link-ignores_rd p h = ground arith
