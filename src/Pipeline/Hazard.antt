-- ===== src/Pipeline/Hazard.antt =====
-- `compare_register`, `check_registers_hazrads` and `is_pipeline_needs_data_hazard_stall`.
use multicore_proccessor.Common.{ℕ, Bool, false, ◌||◌, leb, ◌==◌, if◌then◌else◌}
use multicore_proccessor.Instruction
use multicore_proccessor.Instruction.{immediate_register_index, zero_register_index}
use multicore_proccessor.Opcodes.Code
use multicore_proccessor.Opcodes.{is_branch_resulotion}
use multicore_proccessor.Pipeline.State.{
  Pipeline, decode_stage, execute_stage, mem_stage, write_back_stage, is_bubble,
}

-- Whether the instruction `decode_ins` in decode uses the register as a source.
unfoldable pub uses_register : ℕ → ℕ → Bool
uses_register decode_ins reg =
    if reg == immediate_register_index || reg == zero_register_index
    then false
    else if leb (Instruction.opcode decode_ins) Code.srl || Instruction.opcode decode_ins == Code.lw
    then reg == Instruction.rs decode_ins || reg == Instruction.rt decode_ins
    else reg == Instruction.rd decode_ins
      || reg == Instruction.rs decode_ins
      || reg == Instruction.rt decode_ins

-- The branches for SW and for all else test the same three registers. `stage` is not used.
unfoldable pub compare_register : Pipeline → ℕ → ℕ → Bool
unfolding uses_register
compare_register p reg stage = uses_register (p.pipe_stages decode_stage).instruction reg

unfoldable pub writes_no_register : ℕ → Bool
unfolding is_branch_resulotion
writes_no_register opcode = opcode == Code.sw || is_branch_resulotion opcode || opcode == Code.halt

unfoldable pub check_registers_hazrads : Pipeline → ℕ → Bool
unfolding writes_no_register compare_register
check_registers_hazrads p stage =
    let s = p.pipe_stages stage in
    if is_bubble s
    then false
    else if writes_no_register (Instruction.opcode s.instruction)
    then false
    else compare_register p (Instruction.rd s.instruction) stage

unfoldable pub is_pipeline_needs_data_hazard_stall : Pipeline → Bool
unfolding check_registers_hazrads
is_pipeline_needs_data_hazard_stall p =
    check_registers_hazrads p execute_stage
    || check_registers_hazrads p write_back_stage
    || check_registers_hazrads p mem_stage
