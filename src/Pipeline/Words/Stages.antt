-- ===== src/Pipeline/Words/Stages.antt =====
-- The width of the words of a pipeline through four of the five stages of Core/src/Pipeline.c.
use multicore_proccessor.Common.{
  ℕ, ◌+◌, ◌^◌, ◌<◌, ◌≡◌, inl, inr, true, not, ◌&&◌, Option, some, arith, IsWord, update, update-all,
  if-all, if-cases, if◌then◌else◌, u16, ltb, ◌==◌, defined, ◌>>=◌, >>=-eq-some, some_eq,
}
use mathlib.Core.Path.{subst}
use multicore_proccessor.Instruction
use multicore_proccessor.Instruction.{
  immediate_register_index, program_counter_register_num, instructions_memory_size,
}
use multicore_proccessor.Opcodes.Code
use multicore_proccessor.Opcodes.{
  OpcodeFunction, opcode_mapping, is_branch_resulotion, is_memory_command,
}
use multicore_proccessor.Opcodes.Words.{AreBounded, opcode_mapping-AreBounded}
use multicore_proccessor.Pipeline.State.{
  Pipeline, fetch_stage, decode_stage, execute_stage, write_back_stage,
}
use multicore_proccessor.Pipeline.Stages.{
  prepare_registers_params, call_operation, fetch, decode, execute, writeback, resolve_branch,
  set_operation,
}
use multicore_proccessor.Pipeline.Words.{
  IsWordStage, HasWords, set_stage-HasWords, prepare_registers_params-HasWords,
  call_operation-HasWords,
}

pub fetch-HasWords : (p : Pipeline) {q : Pipeline} → HasWords p → fetch p ≡ some q → HasWords q
unfolding fetch
fetch-HasWords p {q} h e =
    let fetched = record p {
      pipe_stages = update p.pipe_stages fetch_stage (record (p.pipe_stages fetch_stage) {
        pc = p.program_counter;
        instruction = p.instructions p.program_counter;
      });
      program_counter =
          if p.data_hazard_stall then p.program_counter else u16 (p.program_counter + 1);
    } in
    elim (if-cases p.memory_stall (some p)
      (defined (ltb p.program_counter instructions_memory_size) >>= λ _. some fetched) e) [
        | inl stalled ↦ subst HasWords (some_eq p q stalled) h
        | inr runs ↦
            let (_, _, ends) =
              >>=-eq-some (defined (ltb p.program_counter instructions_memory_size))
                (λ _. some fetched) runs in
            subst HasWords (some_eq fetched q ends) (record {
              registers = h.registers;
              stages =
                  update-all IsWordStage p.pipe_stages fetch_stage
                    (record (p.pipe_stages fetch_stage) {
                      pc = p.program_counter;
                      instruction = p.instructions p.program_counter;
                    })
                    h.stages
                    (record {
                      result = (h.stages fetch_stage).result;
                      operation = (h.stages fetch_stage).operation;
                    });
              rs = h.rs;
              rt = h.rt;
              pc =
                  if-all (λ (n : ℕ). n < 2 ^ 16) p.data_hazard_stall p.program_counter
                    (u16 (p.program_counter + 1)) h.pc (omega arith);
              cache = h.cache;
            })
      ]

decoded-HasWords :
    (p : Pipeline) (entry : Option OpcodeFunction)
    → HasWords p
    → AreBounded entry
    → HasWords (set_operation p entry)
unfolding set_operation
decoded-HasWords p entry h k =
    set_stage-HasWords p decode_stage (record (p.pipe_stages decode_stage) { operation = entry }) h
      (record { result = (h.stages decode_stage).result; operation = k })

resolve_branch-HasWords :
    (p : Pipeline) {q : Pipeline} → HasWords p → resolve_branch p ≡ some q → HasWords q
unfolding resolve_branch
resolve_branch-HasWords p h e =
    call_operation-HasWords (prepare_registers_params p decode_stage) decode_stage
      (prepare_registers_params-HasWords p decode_stage h) e

pub decode-HasWords : (p : Pipeline) {q : Pipeline} → HasWords p → decode p ≡ some q → HasWords q
unfolding decode
decode-HasWords p {q} h e =
    let opcode = Instruction.opcode (p.pipe_stages decode_stage).instruction in
    let rest = λ (entry : Option OpcodeFunction).
      let decoded = set_operation p entry in
      if is_branch_resulotion opcode then resolve_branch decoded else some decoded in
    elim (if-cases (opcode == Code.halt) (some (record p { halted = true }))
      (opcode_mapping opcode >>= rest) e) [
        | inl halts ↦ subst HasWords (some_eq (record p { halted = true }) q halts) (record {
          registers = h.registers;
          stages = h.stages;
          rs = h.rs;
          rt = h.rt;
          pc = h.pc;
          cache = h.cache;
        })
        | inr goes ↦
            let (entry, found, ends) = >>=-eq-some (opcode_mapping opcode) rest goes in
            let decoded =
              decoded-HasWords p entry h (opcode_mapping-AreBounded opcode entry found) in
            elim (if-cases (is_branch_resulotion opcode) (resolve_branch (set_operation p entry))
              (some (set_operation p entry)) ends) [
                | inl branches ↦ resolve_branch-HasWords (set_operation p entry) decoded branches
                | inr plain ↦ subst HasWords (some_eq (set_operation p entry) q plain) decoded
              ]
      ]

pub execute-HasWords : (p : Pipeline) {q : Pipeline} → HasWords p → execute p ≡ some q → HasWords q
unfolding execute
execute-HasWords p {q} h e =
    let opcode = Instruction.opcode (p.pipe_stages execute_stage).instruction in
    elim (if-cases
      (not (is_branch_resulotion opcode)
        && not (is_memory_command opcode)
        && not (opcode == Code.halt))
      (call_operation (prepare_registers_params p execute_stage) execute_stage) (some p) e) [
        | inl calls ↦
            call_operation-HasWords (prepare_registers_params p execute_stage) execute_stage
              (prepare_registers_params-HasWords p execute_stage h) calls
        | inr passes ↦ subst HasWords (some_eq p q passes) h
      ]

pub writeback-HasWords : (p : Pipeline) → HasWords p → HasWords (writeback p)
unfolding writeback
writeback-HasWords p h =
    let command = (p.pipe_stages write_back_stage).instruction in
    record {
      registers =
          update-all IsWord p.core_registers
            (if Instruction.opcode command == Code.jal
              then program_counter_register_num
              else Instruction.rd command)
            (p.pipe_stages write_back_stage).execute_result h.registers
            (h.stages write_back_stage).result;
      stages = h.stages;
      rs = h.rs;
      rt = h.rt;
      pc = h.pc;
      cache = h.cache;
    }
