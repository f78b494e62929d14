-- ===== src/Pipeline/Words.antt =====
-- The width of the words in a pipeline of Core/src/Pipeline.c, and a call of an operation on it.
pub mod Stages
pub mod Access
pub mod Control
use multicore_proccessor.Common.{
  ℕ, ◌+◌, ◌^◌, ◌<◌, ◌≡◌, refl, sym, ap, ◌∙◌, ◌⊎◌, inl, inr, Bool, true, false, not, ◌&&◌, Option,
  none, some, arith, IsWord, IsWordArray, update, update-all, if-all, if-cases, if◌then◌else◌, u16,
  u32, ltb, ◌==◌, defined, ◌>>=◌, >>=-eq-some, some_eq,
}
use mathlib.Core.Path.{subst}
use multicore_proccessor.Instruction
use multicore_proccessor.Instruction.{
  immediate_register_index, program_counter_register_num, instructions_memory_size,
}
use multicore_proccessor.Opcodes.Code
use multicore_proccessor.Opcodes.{
  OpcodeFunction, Params, opcode_mapping, is_branch_resulotion, is_memory_command,
}
use multicore_proccessor.Opcodes.Words.{AreBounded, IsBounded, opcode_mapping-AreBounded}
use multicore_proccessor.Opcodes.Words as OpcodeWords
use multicore_proccessor.Bus.Iteration.Words as BusWords
use multicore_proccessor.Cache.State.{CacheData, Shared}
use multicore_proccessor.Cache.Access.{read_data, write_data}
use multicore_proccessor.Cache.Words.{IsWordOption, read_data-words, write_data-words}
use multicore_proccessor.Pipeline.State.{
  Pipeline, PipelineStage, Machine, fetch_stage, decode_stage, execute_stage, mem_stage,
  write_back_stage, set_stage,
}
use multicore_proccessor.Pipeline.Stages.{
  prepare_registers_params, store_result, call_operation, fetch, decode, execute, mem, writeback,
  resolve_branch, set_operation, loaded, stored, access,
}

-- A stage with a result of 32 bits, and an operation that keeps to this width.
pub record IsWordStage (stage : PipelineStage) : Type 0 where
  pub result : IsWord stage.execute_result
  pub operation : AreBounded stage.operation

pub record HasWords (p : Pipeline) : Type 0 where
  pub registers : IsWordArray p.core_registers
  pub stages : (i : ℕ) → IsWordStage (p.pipe_stages i)
  pub rs : IsWord p.opcode_params.rs
  pub rt : IsWord p.opcode_params.rt
  pub pc : p.program_counter < 2 ^ 16
  pub cache : IsWordArray p.cache_data.dsram

pub record HoldsWords (m : Machine) : Type 0 where
  pub pipeline : HasWords m.pipeline
  pub bus : BusWords.HasWords m.shared.bus

pub set_stage-HasWords :
    (p : Pipeline) (i : ℕ) (stage : PipelineStage)
    → HasWords p
    → IsWordStage stage
    → HasWords (set_stage p i stage)
set_stage-HasWords p i stage h k = record {
  registers = h.registers;
  stages = update-all IsWordStage p.pipe_stages i stage h.stages k;
  rs = h.rs;
  rt = h.rt;
  pc = h.pc;
  cache = h.cache;
}

pub prepare_registers_params-HasWords :
    (p : Pipeline) (stage : ℕ) → HasWords p → HasWords (prepare_registers_params p stage)
unfolding prepare_registers_params
prepare_registers_params-HasWords p stage h =
    let command = (p.pipe_stages stage).instruction in
    let registers : IsWordArray
        (update p.core_registers immediate_register_index (Instruction.immediate command)) =
      update-all IsWord p.core_registers immediate_register_index (Instruction.immediate command)
        h.registers (omega arith) in
    record {
      registers = registers;
      stages =
          update-all IsWordStage p.pipe_stages stage
            (record (p.pipe_stages stage) {
              execute_result =
                  update p.core_registers immediate_register_index (Instruction.immediate command)
                    (Instruction.rd command);
            })
            h.stages
            (record {
              result = registers (Instruction.rd command);
              operation = (h.stages stage).operation;
            });
      rs = registers (Instruction.rs command);
      rt = registers (Instruction.rt command);
      pc = h.pc;
      cache = h.cache;
    }

store_result-HasWords :
    (p : Pipeline) (out : Params)
    → HasWords p
    → OpcodeWords.HasWords out
    → HasWords (store_result p out)
unfolding store_result
store_result-HasWords p out h k =
    let target = p.opcode_params.rd in
    record {
      registers = h.registers;
      stages =
          update-all IsWordStage p.pipe_stages target
            (record (p.pipe_stages target) { execute_result = out.rd }) h.stages
            (record { result = k.rd; operation = (h.stages target).operation });
      rs = h.rs;
      rt = h.rt;
      pc = k.pc;
      cache = h.cache;
    }

abbrev params_of : Pipeline → Params
params_of p = record {
  rd = (p.pipe_stages p.opcode_params.rd).execute_result;
  rs = p.opcode_params.rs;
  rt = p.opcode_params.rt;
  pc = p.program_counter;
}

pub call_operation-HasWords :
    (p : Pipeline) (stage : ℕ) {q : Pipeline}
    → HasWords p
    → call_operation p stage ≡ some q
    → HasWords q
unfolding call_operation
call_operation-HasWords p stage {q} h e =
    let (f, found, runs) =
      >>=-eq-some (p.pipe_stages stage).operation
        (λ (f : OpcodeFunction). f (params_of p) >>= λ out. some (store_result p out)) e in
    let (out, computes, ends) =
      >>=-eq-some (f (params_of p)) (λ out. some (store_result p out)) runs in
    let bounded : IsBounded f = subst AreBounded found (h.stages stage).operation in
    subst HasWords (some_eq (store_result p out) q ends) (
      store_result-HasWords p out h (
        bounded (params_of p) out
          (record { rd = (h.stages p.opcode_params.rd).result; rs = h.rs; rt = h.rt; pc = h.pc })
          computes))
