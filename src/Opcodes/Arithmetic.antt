-- ===== src/Opcodes/Arithmetic.antt =====
-- Proofs about the arithmetic instructions of Core/src/Opcodes.c.
use native.Mathlib.Nat.{one-le-pow}
use multicore_proccessor.Common.{
  ℕ, zero, suc, ◌/◌, ◌^◌, ◌<◌, ◌≤◌, ◌≡◌, ◌↔◌, ◌⊎◌, none, some, arith, bit_and-lt, bit_or-lt,
  bit_xor-lt,
}
use multicore_proccessor.Opcodes.{
  Params, dispatch, add, sub, and, or, xor, multiply, logic_shift_left, arithmetic_shift_right,
  logic_shift_right, branch_equal, branch_not_equal, branch_less_then, branch_greater_than,
  branch_less_equal, branch_grater_equal, jump_and_link,
}
use multicore_proccessor.Opcodes.Code

div-lt : (a k : ℕ) → a < 2 ^ 32 → a / 2 ^ k < 2 ^ 32
div-lt a k h = grind (arith, one-le-pow k 2)

-- What an arithmetic instruction leaves alone, and the width of what it writes.
abbrev pub IsWordResult : Params → Params → Type 0
IsWordResult p out = (out.rd < 2 ^ 32) × (out.pc ≡ p.pc) × (out.rs ≡ p.rs) × (out.rt ≡ p.rt)

-- Each of the nine arithmetic instructions, on 32-bit operands, writes a 32-bit result to `rd` and
-- leaves the program counter and the operands as they are.
pub dispatch-IsWordResult :
    (opcode : ℕ) (p : Params) {out : Params}
    → opcode ≤ Code.srl
    → p.rs < 2 ^ 32
    → p.rt < 2 ^ 32
    → dispatch opcode p ≡ some out
    → IsWordResult p out
unfolding dispatch add sub and or xor multiply logic_shift_left arithmetic_shift_right
    logic_shift_right
dispatch-IsWordResult zero p h hs ht e = ground arith
dispatch-IsWordResult (suc zero) p h hs ht e = ground arith
dispatch-IsWordResult (suc (suc zero)) p h hs ht e = ground (arith, bit_and-lt 32 p.rs p.rt)
dispatch-IsWordResult (suc (suc (suc zero))) p h hs ht e = ground (arith, bit_or-lt 32 p.rs p.rt)
dispatch-IsWordResult (suc (suc (suc (suc zero)))) p h hs ht e =
    ground (arith, bit_xor-lt 32 p.rs p.rt)
dispatch-IsWordResult (suc (suc (suc (suc (suc zero))))) p h hs ht e = ground arith
dispatch-IsWordResult (suc (suc (suc (suc (suc (suc zero)))))) p h hs ht e = ground arith
dispatch-IsWordResult (suc (suc (suc (suc (suc (suc (suc zero))))))) p h hs ht e =
    ground (arith, div-lt p.rs p.rt)
dispatch-IsWordResult (suc (suc (suc (suc (suc (suc (suc (suc zero)))))))) p h hs ht e =
    ground (arith, div-lt p.rs p.rt)
dispatch-IsWordResult (suc (suc (suc (suc (suc (suc (suc (suc (suc n))))))))) p h hs ht e =
    absurd (omega arith)

-- An instruction called through the table has no result exactly when it is a shift by 32 or more, or
-- its opcode is LW or above: there the table holds null pointers, and from 21 on nothing.
pub dispatch-eq-none :
    (opcode : ℕ) (p : Params)
    → (dispatch opcode p ≡ none)
      ↔ (((Code.sll ≤ opcode) × (opcode ≤ Code.srl) × (32 ≤ p.rt)) ⊎ (Code.lw ≤ opcode))
unfolding dispatch add sub and or xor multiply logic_shift_left arithmetic_shift_right
    logic_shift_right branch_equal branch_not_equal branch_less_then branch_greater_than
    branch_less_equal branch_grater_equal jump_and_link
dispatch-eq-none
      (suc (
        suc (
          suc (
            suc (
              suc (
                suc (
                  suc (
                    suc (
                      suc (
                        suc
                          (suc (suc (suc (suc (suc (suc (suc (suc (suc (suc zero))))))))))))))))))))
      p =
    ground arith
dispatch-eq-none _ p = ground arith
