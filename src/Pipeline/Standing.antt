-- ===== src/Pipeline/Standing.antt =====
-- Pipeline_Execute of Core/src/Pipeline.c leaves the program counters of the stages of a halted pipeline.
use multicore_proccessor.Common.{
  ℕ, zero, suc, ◌+◌, ◌≡◌, ◌≤◌, arith, inl, inr, true, not, ◌&&◌, Option, none, some, ◌==◌,
  if◌then◌else◌, if-all, if-cases, ◌>>=◌, >>=-eq-some, some_eq, u32, refl, Bool,
}
use mathlib.Core.Path.{subst}
use multicore_proccessor.Instruction
use multicore_proccessor.Opcodes.Code
use multicore_proccessor.Opcodes.{
  OpcodeFunction, Params, opcode_mapping, is_branch_resulotion, is_memory_command,
}
use multicore_proccessor.Cache.State.{CacheData, Shared}
use multicore_proccessor.Cache.Access.{read_data, write_data}
use multicore_proccessor.Pipeline.State.{
  Pipeline, PipelineStage, Machine, decode_stage, execute_stage, mem_stage, set_stage,
}
use multicore_proccessor.Pipeline.Stages.{
  prepare_registers_params, store_result, call_operation, decode, execute, mem, writeback,
  resolve_branch, set_operation, loaded, stored, access,
}
use multicore_proccessor.Pipeline.Control.{pipe_functions, update_statistics, execute_pipeline}
use multicore_proccessor.Pipeline.Keeping.{local-keeps, execute_pipeline-keeps}

-- Halted, with the stages at these program counters.
pub record Stands (pcs : ℕ → ℕ) (p : Pipeline) : Type 0 where
  pub halted : p.halted ≡ true
  pub at : (i : ℕ) → (p.pipe_stages i).pc ≡ pcs i

module _ (pcs : ℕ → ℕ) where
  set_stage-Stands :
      (p : Pipeline) (i : ℕ) (stage : PipelineStage)
      → Stands pcs p
      → stage.pc ≡ (p.pipe_stages i).pc
      → Stands pcs (set_stage p i stage)
  set_stage-Stands p i stage h e = record {
    halted = h.halted;
    at = λ j. ground (arith, e, h.at i, h.at j);
  }

  prepare_registers_params-Stands :
      (p : Pipeline) (stage : ℕ) → Stands pcs p → Stands pcs (prepare_registers_params p stage)
  unfolding prepare_registers_params
  prepare_registers_params-Stands p stage h = record {
    halted = h.halted;
    at = λ j. ground (arith, h.at stage, h.at j);
  }

  store_result-Stands :
      (p : Pipeline) (out : Params) → Stands pcs p → Stands pcs (store_result p out)
  unfolding store_result
  store_result-Stands p out h = record {
    halted = h.halted;
    at = λ j. ground (arith, h.at p.opcode_params.rd, h.at j);
  }

  call_operation-Stands :
      (p : Pipeline) (stage : ℕ) {q : Pipeline}
      → Stands pcs p
      → call_operation p stage ≡ some q
      → Stands pcs q
  unfolding call_operation
  call_operation-Stands p stage {q} h e =
      let params : Params = record {
        rd = (p.pipe_stages p.opcode_params.rd).execute_result;
        rs = p.opcode_params.rs;
        rt = p.opcode_params.rt;
        pc = p.program_counter;
      } in
      let (f, _, runs) =
        >>=-eq-some (p.pipe_stages stage).operation
          (λ (f : OpcodeFunction). f params >>= λ out. some (store_result p out)) e in
      let (out, _, ends) = >>=-eq-some (f params) (λ out. some (store_result p out)) runs in
      subst (Stands pcs) (some_eq (store_result p out) q ends) (store_result-Stands p out h)

  decode-Stands : (p : Pipeline) {q : Pipeline} → Stands pcs p → decode p ≡ some q → Stands pcs q
  unfolding decode resolve_branch set_operation
  decode-Stands p {q} h e =
      let opcode = Instruction.opcode (p.pipe_stages decode_stage).instruction in
      let rest = λ (entry : Option OpcodeFunction).
        let decoded = set_operation p entry in
        if is_branch_resulotion opcode then resolve_branch decoded else some decoded in
      elim (if-cases (opcode == Code.halt) (some (record p { halted = true }))
        (opcode_mapping opcode >>= rest) e) [
          | inl halts ↦
              subst (Stands pcs) (some_eq (record p { halted = true }) q halts)
                (record { halted = refl; at = h.at })
          | inr goes ↦
              let (entry, _, ends) = >>=-eq-some (opcode_mapping opcode) rest goes in
              let decoded =
                set_stage-Stands p decode_stage
                  (record (p.pipe_stages decode_stage) { operation = entry }) h refl in
              elim (if-cases (is_branch_resulotion opcode) (resolve_branch (set_operation p entry))
                (some (set_operation p entry)) ends) [
                  | inl branches ↦
                      call_operation-Stands
                        (prepare_registers_params (set_operation p entry) decode_stage) decode_stage
                        (prepare_registers_params-Stands (set_operation p entry) decode_stage
                          decoded)
                        branches
                  | inr plain ↦ subst (Stands pcs) (some_eq (set_operation p entry) q plain) decoded
                ]
        ]

  execute-Stands : (p : Pipeline) {q : Pipeline} → Stands pcs p → execute p ≡ some q → Stands pcs q
  unfolding execute
  execute-Stands p {q} h e =
      let opcode = Instruction.opcode (p.pipe_stages execute_stage).instruction in
      elim (if-cases
        (not (is_branch_resulotion opcode)
          && not (is_memory_command opcode)
          && not (opcode == Code.halt))
        (call_operation (prepare_registers_params p execute_stage) execute_stage) (some p) e) [
          | inl calls ↦
              call_operation-Stands (prepare_registers_params p execute_stage) execute_stage
                (prepare_registers_params-Stands p execute_stage h) calls
          | inr passes ↦ subst (Stands pcs) (some_eq p q passes) h
        ]

  loaded-Stands :
      (p : Pipeline) (r : Option ℕ × CacheData × Shared)
      → Stands pcs p
      → Stands pcs (loaded p r).pipeline
  unfolding loaded
  loaded-Stands p (none, c, s) h = record { halted = h.halted; at = h.at }
  loaded-Stands p (some word, c, s) h = record {
    halted = h.halted;
    at =
        (set_stage-Stands p mem_stage (record (p.pipe_stages mem_stage) { execute_result = word }) h
          refl).at;
  }

  stored-Stands :
      (p : Pipeline) (r : Bool × CacheData × Shared)
      → Stands pcs p
      → Stands pcs (stored p r).pipeline
  unfolding stored
  stored-Stands p (written, c, s) h = record { halted = h.halted; at = h.at }

  mem-Stands : (m : Machine) → Stands pcs m.pipeline → Stands pcs (mem m).pipeline
  unfolding mem access
  mem-Stands m h =
      let opcode = Instruction.opcode (m.pipeline.pipe_stages mem_stage).instruction in
      let p = prepare_registers_params m.pipeline mem_stage in
      let prepared = prepare_registers_params-Stands m.pipeline mem_stage h in
      let address = u32 (p.opcode_params.rs + p.opcode_params.rt) in
      let reads = read_data p.cache_data m.shared address in
      let writes =
        write_data p.cache_data m.shared address
          (p.pipe_stages p.opcode_params.rd).execute_result in
      let Good = λ (x : Machine). Stands pcs x.pipeline in
      if-all Good (is_memory_command opcode) (access p m.shared opcode) m
        (if-all Good (opcode == Code.lw) (loaded p reads) (stored p writes)
          (loaded-Stands p reads prepared) (stored-Stands p writes prepared))
        h

  later-Stands :
      (stage : ℕ) (m m' : Machine)
      → 1 ≤ stage
      → Stands pcs m.pipeline
      → pipe_functions stage m ≡ some m'
      → Stands pcs m'.pipeline
  unfolding pipe_functions writeback
  later-Stands zero m m' le h e = absurd (omega arith)
  later-Stands (suc zero) m m' le h e =
      local-keeps (λ x. Stands pcs x.pipeline) decode m (λ q runs. decode-Stands m.pipeline h runs)
        e
  later-Stands (suc (suc zero)) m m' le h e =
      local-keeps (λ x. Stands pcs x.pipeline) execute m
        (λ q runs. execute-Stands m.pipeline h runs) e
  later-Stands (suc (suc (suc zero))) m m' le h e =
      subst (λ (x : Machine). Stands pcs x.pipeline) (some_eq (mem m) m' e) (mem-Stands m h)
  later-Stands (suc (suc (suc (suc zero)))) m m' le h e =
      local-keeps (λ x. Stands pcs x.pipeline) (λ p. some (writeback p)) m
        (λ q runs.
          subst (Stands pcs) (some_eq (writeback m.pipeline) q runs)
            (record { halted = h.halted; at = h.at }))
        e
  later-Stands (suc (suc (suc (suc (suc n))))) m m' le h e = absurd (cc e)

  update_statistics-Stands : (p : Pipeline) → Stands pcs p → Stands pcs (update_statistics p)
  unfolding update_statistics
  update_statistics-Stands p h = record {
    halted = ground (arith, h.halted);
    at = λ i. ground (arith, h.at i);
  }

  pub execute_pipeline-Stands :
      (m : Machine) {m' : Machine}
      → Stands pcs m.pipeline
      → execute_pipeline m ≡ some m'
      → Stands pcs m'.pipeline
  execute_pipeline-Stands m h e =
      execute_pipeline-keeps (λ x. Stands pcs x.pipeline) later-Stands
        (λ m m' live k e. absurd (cc (live, k.halted)))
        (λ m b k. record { halted = k.halted; at = k.at })
        (λ m k. update_statistics-Stands m.pipeline k) m h e
