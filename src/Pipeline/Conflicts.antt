-- ===== src/Pipeline/Conflicts.antt =====
-- Which data hazards `is_pipeline_needs_data_hazard_stall` of Core/src/Pipeline.c finds.
use multicore_proccessor.Common.{
  ℕ, ◌≤◌, ◌<◌, ◌≡◌, ◌≢◌, ◌⊎◌, inl, inr, ◌||◌, ◌↔◌, Bool, true, false, arith, uint16_max,
}
use multicore_proccessor.Instruction
use multicore_proccessor.Opcodes.Code
use multicore_proccessor.Pipeline.State.{
  Pipeline, decode_stage, execute_stage, mem_stage, write_back_stage,
}
use multicore_proccessor.Pipeline.Hazard.{
  check_registers_hazrads, is_pipeline_needs_data_hazard_stall, uses_register, writes_no_register,
}

-- Whether an instruction reads a register: its sources, and `rd` if it is neither arithmetic nor LW.
abbrev pub Reads : ℕ → ℕ → Type 0
Reads command reg =
    (reg ≡ Instruction.rs command)
    ⊎ (reg ≡ Instruction.rt command)
    ⊎ ((Code.srl < Instruction.opcode command)
        × (Instruction.opcode command ≢ Code.lw)
        × (reg ≡ Instruction.rd command))

-- Whether the test takes an instruction for one that writes `rd`: SW, HALT and all branches are not.
abbrev pub Writes : ℕ → Type 0
Writes command =
    (Instruction.opcode command ≢ Code.sw)
    × (Instruction.opcode command ≢ Code.halt)
    × ((Instruction.opcode command < Code.beq) ⊎ (Code.lw ≤ Instruction.opcode command))

-- An instruction under way writes a register, above the two special ones, that the one in decode reads.
abbrev pub Conflict : Pipeline → ℕ → Type 0
Conflict p stage =
    ((p.pipe_stages stage).pc ≢ uint16_max)
    × Writes (p.pipe_stages stage).instruction
    × (1 < Instruction.rd (p.pipe_stages stage).instruction)
    × Reads (p.pipe_stages decode_stage).instruction
        (Instruction.rd (p.pipe_stages stage).instruction)

uses_register-Reads :
    (command reg : ℕ) → (uses_register command reg ≡ true) ↔ ((1 < reg) × Reads command reg)
unfolding uses_register
uses_register-Reads command reg = ground arith

writes_no_register-Writes :
    (command : ℕ) → (writes_no_register (Instruction.opcode command) ≡ false) ↔ Writes command
unfolding writes_no_register
writes_no_register-Writes command = ground arith

check_registers_hazrads-Conflict :
    (p : Pipeline) (stage : ℕ) → (check_registers_hazrads p stage ≡ true) ↔ Conflict p stage
unfolding check_registers_hazrads
check_registers_hazrads-Conflict p stage = ground (
  arith,
  uses_register-Reads (p.pipe_stages decode_stage).instruction
      (Instruction.rd (p.pipe_stages stage).instruction),
  writes_no_register-Writes (p.pipe_stages stage).instruction,
)

any_of_three : (a b c : Bool) → ((a || b || c) ≡ true) ↔ ((a ≡ true) ⊎ (c ≡ true) ⊎ (b ≡ true))
any_of_three a b c = ground arith

-- The decode stage is stalled for a data hazard exactly when an instruction in execute, mem or write
-- back that writes `rd` has there a register above 1 that the instruction in decode reads.
pub data_hazard_stall-Conflict :
    (p : Pipeline)
    → (is_pipeline_needs_data_hazard_stall p ≡ true)
      ↔ (Conflict p execute_stage ⊎ Conflict p mem_stage ⊎ Conflict p write_back_stage)
unfolding is_pipeline_needs_data_hazard_stall
data_hazard_stall-Conflict p = (
  λ h. elim (any.0 h) [
    | inl e ↦ inl ((check_registers_hazrads-Conflict p execute_stage).0 e)
    | inr (inl e) ↦ inr (inl ((check_registers_hazrads-Conflict p mem_stage).0 e))
    | inr (inr e) ↦ inr (inr ((check_registers_hazrads-Conflict p write_back_stage).0 e))
  ],
  λ h. any.1 (elim h [
    | inl e ↦ inl ((check_registers_hazrads-Conflict p execute_stage).1 e)
    | inr (inl e) ↦ inr (inl ((check_registers_hazrads-Conflict p mem_stage).1 e))
    | inr (inr e) ↦ inr (inr ((check_registers_hazrads-Conflict p write_back_stage).1 e))
  ]),
)
  where
    any : (is_pipeline_needs_data_hazard_stall p ≡ true) ↔ (
        (check_registers_hazrads p execute_stage ≡ true)
        ⊎ (check_registers_hazrads p mem_stage ≡ true)
        ⊎ (check_registers_hazrads p write_back_stage ≡ true))
    any = any_of_three _ _ _
