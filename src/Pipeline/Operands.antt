-- ===== src/Pipeline/Operands.antt =====
-- What an instruction reads and writes: `fetch`, `decode`, `execute`, `writeback` and
-- `prepare_registers_params` of Core/src/Pipeline.c.
use multicore_proccessor.Common.{
  ℕ, zero, suc, ◌^◌, ◌≤◌, ◌<◌, ◌≡◌, ◌≢◌, true, false, ◌==◌, none, some, arith, refl, if◌then◌else◌,
  update, ap, sym, ◌∙◌, >>=-eq-some, some_eq,
}
use multicore_proccessor.Instruction
use multicore_proccessor.Opcodes.Code
use multicore_proccessor.Opcodes.{
  Params, OpcodeFunction, opcode_mapping, dispatch, is_branch_resulotion,
}
use multicore_proccessor.Pipeline.LostDecode.{is_arithmetic}
use multicore_proccessor.Pipeline.State.{
  Pipeline, decode_stage, execute_stage, write_back_stage, fetch_stage, set_stage,
}
use multicore_proccessor.Pipeline.Stages.{
  prepare_registers_params, call_operation, fetch, decode, execute, writeback,
}

-- The value of a register as an instruction reads it: register 1 is its own immediate.
abbrev pub operand : Pipeline → ℕ → ℕ → ℕ
operand p command reg = if 1 == reg then Instruction.immediate command else p.core_registers reg

-- The parameters of an instruction in a stage.
abbrev pub params_of : Pipeline → ℕ → Params
params_of p command = record {
  rd = operand p command (Instruction.rd command);
  rs = operand p command (Instruction.rs command);
  rt = operand p command (Instruction.rt command);
  pc = p.program_counter;
}

-- The immediate is not sign-extended: an instruction that reads register 1 gets its immediate field, a
-- number below 4096, and no negative number, whatever the field's highest bit.
pub immediate-not_sign_extended :
    (p : Pipeline) (stage : ℕ)
    → let command = (p.pipe_stages stage).instruction in
      let q = prepare_registers_params p stage in
      (Instruction.rt command ≡ 1 → q.opcode_params.rt ≡ Instruction.immediate command)
      × (q.core_registers 1 ≡ Instruction.immediate command)
      × (q.core_registers 1 < 2 ^ 12)
unfolding prepare_registers_params
immediate-not_sign_extended p stage = ground arith

-- Register 0 is not constant: after an instruction other than JAL with `rd` 0 has been written back, an
-- instruction that reads register 0 reads that result.
pub zero_register-written :
    (p : Pipeline) (stage : ℕ)
    → Instruction.rd (p.pipe_stages write_back_stage).instruction ≡ 0
    → Instruction.opcode (p.pipe_stages write_back_stage).instruction ≢ Code.jal
    → Instruction.rs (p.pipe_stages stage).instruction ≡ 0
    → (prepare_registers_params (writeback p) stage).opcode_params.rs
      ≡ (p.pipe_stages write_back_stage).execute_result
unfolding prepare_registers_params writeback
zero_register-written p stage hd ho hs = ground arith

-- From the last word of the instruction memory the fetch goes on past its end, where it has no result:
-- the program counter does not wrap at ten bits.
pub fetch-runs_off :
    (p : Pipeline)
    → p.memory_stall ≡ false
    → p.data_hazard_stall ≡ false
    → p.program_counter ≡ 1023
    → (q : Pipeline) × (fetch p ≡ some q) × (q.program_counter ≡ 1024) × (fetch q ≡ none)
unfolding fetch
fetch-runs_off p ms ds h = (
  record p {
    program_counter = 1024;
    pipe_stages = update p.pipe_stages fetch_stage (record (p.pipe_stages fetch_stage) {
      pc = p.program_counter;
      instruction = p.instructions p.program_counter;
    });
  },
  ground arith,
  refl,
  ground arith,
)

-- A stage whose operation is the one that the table has for its instruction.
abbrev pub IsDecoded : Pipeline → ℕ → Type 0
IsDecoded p stage =
    opcode_mapping (Instruction.opcode (p.pipe_stages stage).instruction)
    ≡ some (p.pipe_stages stage).operation

-- What a call through the table has found when it has a result.
dispatch-eq-some :
    (opcode : ℕ) (p : Params) {out : Params}
    → dispatch opcode p ≡ some out
    → (f : OpcodeFunction) × (opcode_mapping opcode ≡ some (some f)) × (f p ≡ some out)
unfolding dispatch
dispatch-eq-some opcode p h =
    let (entry, found, rest) = >>=-eq-some (opcode_mapping opcode) _ h in
    let (f, is_f, result) = >>=-eq-some entry (λ (f : OpcodeFunction). f p) rest in
    (f, found ∙ ap some is_f, result)

-- The pipeline after a stage's operation has been called and has left its results.
with_result : Pipeline → ℕ → Params → Pipeline
unfolding prepare_registers_params
with_result p stage out =
    let q = prepare_registers_params p stage in
    record q {
      program_counter = out.pc;
      pipe_stages =
          update q.pipe_stages stage (record (q.pipe_stages stage) { execute_result = out.rd });
    }

call_operation-prepared :
    (p : Pipeline) (stage : ℕ) (f : OpcodeFunction) {out : Params}
    → stage ≤ execute_stage
    → (p.pipe_stages stage).operation ≡ some f
    → f (params_of p (p.pipe_stages stage).instruction) ≡ some out
    → call_operation (prepare_registers_params p stage) stage ≡ some (with_result p stage out)
unfolding call_operation with_result
call_operation-prepared p zero f h e r = rw (e, r)
call_operation-prepared p (suc zero) f h e r = rw (e, r)
call_operation-prepared p (suc (suc zero)) f h e r = rw (e, r)
call_operation-prepared p (suc (suc (suc n))) f h e r = absurd (omega arith)

-- What a stage leaves when the operation of its instruction has had the result `out`: the program
-- counter and the stage's result are those of `out`, and of the registers only the immediate's changes.
abbrev pub Leaves : Pipeline → ℕ → Params → Pipeline → Type 0
Leaves p stage out q =
    (q.program_counter ≡ out.pc)
    × ((q.pipe_stages stage).execute_result ≡ out.rd)
    × ((reg : ℕ) → reg ≢ 1 → q.core_registers reg ≡ p.core_registers reg)

with_result-Leaves :
    (p : Pipeline) (stage : ℕ) (out : Params) → Leaves p stage out (with_result p stage out)
unfolding with_result
with_result-Leaves p stage out = ground arith

-- The execute stage computes its instruction: for an arithmetic instruction that has been decoded it
-- leaves the result that the instruction's function has on the values of its registers, register 1
-- read as the immediate.
pub execute-Leaves :
    (p : Pipeline) {out : Params}
    → Instruction.opcode (p.pipe_stages execute_stage).instruction ≤ Code.srl
    → IsDecoded p execute_stage
    → dispatch
        (Instruction.opcode (p.pipe_stages execute_stage).instruction)
        (params_of p (p.pipe_stages execute_stage).instruction)
      ≡ some out
    → (q : Pipeline) × (execute p ≡ some q) × Leaves p execute_stage out q
unfolding execute
execute-Leaves p {out} h decoded result =
    let (f, found, computed) = dispatch-eq-some _ _ result in
    (
      with_result p execute_stage out,
      rw (is_arithmetic _ h) (
          call_operation-prepared p execute_stage f (omega arith)
            (some_eq _ _ (sym decoded ∙ found)) computed),
      with_result-Leaves p execute_stage out,
    )

-- The pipeline with the operation of the instruction in decode set.
abbrev decoded_as : Pipeline → OpcodeFunction → Pipeline
decoded_as p f =
    set_stage p decode_stage (record (p.pipe_stages decode_stage) { operation = some f })

is_branch :
    (opcode : ℕ)
    → Code.beq ≤ opcode
    → opcode < Code.lw
    → (is_branch_resulotion opcode ≡ true) × ((opcode == Code.halt) ≡ false)
unfolding is_branch_resulotion
is_branch opcode lo hi = ground arith

decode_lem :
    (p : Pipeline) (f : OpcodeFunction)
    → Code.beq ≤ Instruction.opcode (p.pipe_stages decode_stage).instruction
    → Instruction.opcode (p.pipe_stages decode_stage).instruction < Code.lw
    → opcode_mapping (Instruction.opcode (p.pipe_stages decode_stage).instruction) ≡ some (some f)
    → decode p
      ≡ call_operation (prepare_registers_params (decoded_as p f) decode_stage) decode_stage
unfolding decode
decode_lem p f lo hi found = rw ((is_branch _ lo hi).1, found, (is_branch _ lo hi).0)

-- The decode stage resolves branches: a branch or JAL whose function has a result on the values of its
-- registers leaves the program counter and the result of that; the stage is then decoded.
pub decode-Leaves :
    (p : Pipeline) {out : Params}
    → Code.beq ≤ Instruction.opcode (p.pipe_stages decode_stage).instruction
    → Instruction.opcode (p.pipe_stages decode_stage).instruction < Code.lw
    → dispatch
        (Instruction.opcode (p.pipe_stages decode_stage).instruction)
        (params_of p (p.pipe_stages decode_stage).instruction)
      ≡ some out
    → (q : Pipeline) × (decode p ≡ some q) × Leaves p decode_stage out q × IsDecoded q decode_stage
decode-Leaves p {out} lo hi result =
    let (f, found, computed) = dispatch-eq-some _ _ result in
    (
      with_result (decoded_as p f) decode_stage out,
      decode_lem p f lo hi found
          ∙ call_operation-prepared (decoded_as p f) decode_stage f (omega arith) refl computed,
      with_result-Leaves (decoded_as p f) decode_stage out,
      unfold with_result in found,
    )
