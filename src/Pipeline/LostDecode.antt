-- ===== src/Pipeline/LostDecode.antt =====
-- An instruction that is held in decode by a data hazard when a miss begins loses its decoding.
use multicore_proccessor.Common.{
  ℕ, ◌≤◌, ◌≡◌, ◌≢◌, true, false, not, none, some, inl, arith, uint16_max, ◌∙◌, ◌&&◌, ◌==◌,
}
use multicore_proccessor.Instruction
use multicore_proccessor.Opcodes.Code
use multicore_proccessor.Opcodes.{is_branch_resulotion, is_memory_command}
use multicore_proccessor.Pipeline.State.{Pipeline, Machine, decode_stage, execute_stage}
use multicore_proccessor.Pipeline.Hazard.{is_pipeline_needs_data_hazard_stall}
use multicore_proccessor.Pipeline.Stages.{
  fetch, execute, mem, writeback, call_operation, prepare_registers_params,
}
use multicore_proccessor.Pipeline.Control.{execute_pipeline, bubble_commands}
use multicore_proccessor.Pipeline.Movement.{bubble_commands-moves}

-- An instruction in decode whose operation has not been set, as it comes from fetch.
abbrev pub Undecoded : Pipeline → Type 0
Undecoded p =
    ((p.pipe_stages decode_stage).pc ≢ uint16_max)
    × (Instruction.opcode (p.pipe_stages decode_stage).instruction ≤ Code.srl)
    × ((p.pipe_stages decode_stage).operation ≡ none)

-- What the last two stages leave alone in the others.
record KeepsDecode (p p' : Pipeline) : Type 0 where
  stage : p'.pipe_stages decode_stage ≡ p.pipe_stages decode_stage
  live : p'.halted ≡ p.halted
  hazard : p'.data_hazard_stall ≡ p.data_hazard_stall

mem-KeepsDecode : (m : Machine) → KeepsDecode m.pipeline (mem m).pipeline
unfolding mem
mem-KeepsDecode m = ground (arith)

writeback-KeepsDecode : (p : Pipeline) → KeepsDecode p (writeback p)
unfolding writeback
writeback-KeepsDecode p = ground arith

fetch-stalled : (p : Pipeline) → p.memory_stall ≡ true → fetch p ≡ some p
unfolding fetch
fetch-stalled p h = ground arith

execute_pipeline-KeepsDecode :
    (m : Machine) {m' : Machine}
    → m.pipeline.memory_stall ≡ true
    → execute_pipeline m ≡ some m'
    → KeepsDecode
        (record m.pipeline { data_hazard_stall = m'.pipeline.data_hazard_stall })
        m'.pipeline
unfolding execute_pipeline
execute_pipeline-KeepsDecode m stall e =
    let p = record m.pipeline {
      data_hazard_stall = is_pipeline_needs_data_hazard_stall m.pipeline;
    } in
    let after_mem = mem (record m { pipeline = p }) in
    ground (
      arith,
      fetch-stalled p,
      mem-KeepsDecode (record m { pipeline = p }),
      writeback-KeepsDecode after_mem.pipeline,
      writeback-KeepsDecode p,
    )

pub is_arithmetic :
    (opcode : ℕ)
    → opcode ≤ Code.srl
    → (not (is_branch_resulotion opcode)
        && not (is_memory_command opcode)
        && not (opcode == Code.halt))
      ≡ true
unfolding is_branch_resulotion is_memory_command
is_arithmetic opcode h = ground arith

-- An arithmetic instruction with a null operation cannot be executed.
execute-null :
    (p : Pipeline)
    → Instruction.opcode (p.pipe_stages execute_stage).instruction ≤ Code.srl
    → (p.pipe_stages execute_stage).operation ≡ none
    → execute p ≡ none
unfolding execute call_operation prepare_registers_params
execute-null p h e = rw (is_arithmetic _ h, e)

-- In a cycle of a memory stall, the decode stage does not run: if the miss ends in that cycle, with an
-- arithmetic instruction in decode that has not been decoded, the instruction goes on to execute
-- with a null operation, and executing it is a call of a null pointer.
pub lost_decode_faults :
    (m : Machine) {m' : Machine}
    → m.pipeline.memory_stall ≡ true
    → m.pipeline.halted ≡ false
    → Undecoded m.pipeline
    → execute_pipeline m ≡ some m'
    → m'.pipeline.memory_stall ≡ false
    → m'.pipeline.data_hazard_stall ≡ false
    → execute (bubble_commands m'.pipeline) ≡ none
lost_decode_faults m {m'} stall live und e ms ds =
    execute-null (bubble_commands m'.pipeline) (rw same und.1) (rw same und.2)
  where
    kept :
        KeepsDecode
          (record m.pipeline { data_hazard_stall = m'.pipeline.data_hazard_stall })
          m'.pipeline
    kept = execute_pipeline-KeepsDecode m stall e

    same :
        (bubble_commands m'.pipeline).pipe_stages execute_stage
        ≡ m.pipeline.pipe_stages decode_stage
    same =
        bubble_commands-moves m'.pipeline decode_stage (omega arith) ms ds (inl (kept.live ∙ live))
          (rw kept.stage und.0)
        ∙ kept.stage
