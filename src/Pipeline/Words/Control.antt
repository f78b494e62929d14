-- ===== src/Pipeline/Words/Control.antt =====
-- The width of the words of a pipeline through a cycle of Core/src/Pipeline.c.
use multicore_proccessor.Common.{
  ℕ, zero, suc, ◌-◌, ◌≡◌, ◌<◌, ◌^◌, refl, sym, arith, IsWord, IsWordArray, ◌&&◌, Option, some,
  if-all, if◌then◌else◌, ◌==◌, some_eq, uint16_max,
}
use mathlib.Core.Path.{subst}
use multicore_proccessor.Cache.State.{CacheData}
use multicore_proccessor.Pipeline.State.{
  Pipeline, PipelineStage, OpcodeParams, Machine, fetch_stage, decode_stage, execute_stage,
  write_back_stage, pipeline_size, is_bubble, set_stage, set_bubble,
}
use multicore_proccessor.Pipeline.Stages.{fetch, decode, execute, mem, writeback}
use multicore_proccessor.Pipeline.Control.{
  local, pipe_functions, update_statistics, execute_pipeline, advance, bubble_loop, bubble_commands,
}
use multicore_proccessor.Pipeline.Keeping.{local-keeps, execute_pipeline-keeps}
use multicore_proccessor.Pipeline.Words.{IsWordStage, HasWords, HoldsWords, set_stage-HasWords}
use multicore_proccessor.Pipeline.Words.Access.{mem-HoldsWords}
use multicore_proccessor.Pipeline.Words.Stages.{
  fetch-HasWords, decode-HasWords, execute-HasWords, writeback-HasWords,
}

held :
    (stage : Pipeline → Option Pipeline) (m : Machine) {m' : Machine}
    → ((q : Pipeline) → stage m.pipeline ≡ some q → HasWords q)
    → HoldsWords m
    → local stage m ≡ some m'
    → HoldsWords m'
held stage m k h e =
    local-keeps HoldsWords stage m (λ q runs. record { pipeline = k q runs; bus = h.bus }) e

pipe_functions-HoldsWords :
    (stage : ℕ) (m : Machine) {m' : Machine}
    → HoldsWords m
    → pipe_functions stage m ≡ some m'
    → HoldsWords m'
unfolding pipe_functions
pipe_functions-HoldsWords zero m h e =
    held fetch m (λ q runs. fetch-HasWords m.pipeline h.pipeline runs) h e
pipe_functions-HoldsWords (suc zero) m h e =
    held decode m (λ q runs. decode-HasWords m.pipeline h.pipeline runs) h e
pipe_functions-HoldsWords (suc (suc zero)) m h e =
    held execute m (λ q runs. execute-HasWords m.pipeline h.pipeline runs) h e
pipe_functions-HoldsWords (suc (suc (suc zero))) m {m'} h e =
    subst HoldsWords (some_eq (mem m) m' e) (mem-HoldsWords m h)
pipe_functions-HoldsWords (suc (suc (suc (suc zero)))) m h e =
    held (λ p. some (writeback p)) m
      (λ q runs.
        subst HasWords (some_eq (writeback m.pipeline) q runs)
          (writeback-HasWords m.pipeline h.pipeline))
      h e
pipe_functions-HoldsWords (suc (suc (suc (suc (suc n))))) m h e = absurd (cc e)

-- It is a matter of neither the flags nor the statistics.
along-HasWords :
    (p q : Pipeline)
    → q.core_registers ≡ p.core_registers
    → q.pipe_stages ≡ p.pipe_stages
    → q.opcode_params ≡ p.opcode_params
    → q.program_counter ≡ p.program_counter
    → q.cache_data ≡ p.cache_data
    → HasWords p
    → HasWords q
along-HasWords p q registers stages params pc cache h = record {
  registers = subst IsWordArray (sym registers) h.registers;
  stages = subst (λ (f : ℕ → PipelineStage). (i : ℕ) → IsWordStage (f i)) (sym stages) h.stages;
  rs = subst (λ (x : OpcodeParams). IsWord x.rs) (sym params) h.rs;
  rt = subst (λ (x : OpcodeParams). IsWord x.rt) (sym params) h.rt;
  pc = subst (λ (n : ℕ). n < 2 ^ 16) (sym pc) h.pc;
  cache = subst (λ (c : CacheData). IsWordArray c.dsram) (sym cache) h.cache;
}

update_statistics-HasWords : (p : Pipeline) → HasWords p → HasWords (update_statistics p)
unfolding update_statistics
update_statistics-HasWords p h =
    along-HasWords p (update_statistics p) (ground arith) (ground arith) (ground arith)
      (ground arith) (ground arith) h

pub execute_pipeline-HoldsWords :
    (m : Machine) {m' : Machine} → HoldsWords m → execute_pipeline m ≡ some m' → HoldsWords m'
execute_pipeline-HoldsWords m h e =
    execute_pipeline-keeps HoldsWords (λ stage m m' le. pipe_functions-HoldsWords stage m)
      (λ m m' halted. pipe_functions-HoldsWords fetch_stage m)
      (λ m b k. record {
        pipeline =
            along-HasWords m.pipeline (record m.pipeline { data_hazard_stall = b }) refl refl refl
              refl refl k.pipeline;
        bus = k.bus;
      })
      (λ m k. record { pipeline = update_statistics-HasWords m.pipeline k.pipeline; bus = k.bus }) m
      h e

set_bubble-HasWords : (p : Pipeline) (i : ℕ) → HasWords p → HasWords (set_bubble p i)
set_bubble-HasWords p i h =
    set_stage-HasWords p i (record (p.pipe_stages i) { pc = uint16_max }) h
      (record { result = (h.stages i).result; operation = (h.stages i).operation })

advance-IsWordStage :
    (previous stage : PipelineStage)
    → IsWordStage previous
    → IsWordStage stage
    → IsWordStage (advance previous stage)
unfolding advance
advance-IsWordStage previous stage h k =
    if-all IsWordStage (is_bubble previous) (record stage { pc = uint16_max }) previous
      (record { result = k.result; operation = k.operation }) h

bubble_loop-HasWords : (n : ℕ) (p : Pipeline) → HasWords p → HasWords (bubble_loop n p)
unfolding bubble_loop
bubble_loop-HasWords zero p h = h
bubble_loop-HasWords (suc n) p h =
    let stage = advance (p.pipe_stages n) (p.pipe_stages (suc n)) in
    let moved = set_stage p (suc n) stage in
    if-all HasWords p.memory_stall (set_bubble p write_back_stage)
      (if p.data_hazard_stall && suc n == execute_stage
        then set_bubble p execute_stage
        else bubble_loop n moved)
      (set_bubble-HasWords p write_back_stage h)
      (if-all HasWords (p.data_hazard_stall && suc n == execute_stage) (set_bubble p execute_stage)
        (bubble_loop n moved) (set_bubble-HasWords p execute_stage h)
        (bubble_loop-HasWords n moved (
          set_stage-HasWords p (suc n) stage h (
            advance-IsWordStage (p.pipe_stages n) (p.pipe_stages (suc n)) (h.stages n)
              (h.stages (suc n))))))

pub bubble_commands-HasWords : (p : Pipeline) → HasWords p → HasWords (bubble_commands p)
unfolding bubble_commands
bubble_commands-HasWords p h =
    let moved = bubble_loop (pipeline_size - 1) p in
    let words = bubble_loop-HasWords (pipeline_size - 1) p h in
    if-all HasWords p.halted (set_bubble (set_bubble moved fetch_stage) decode_stage) moved
      (set_bubble-HasWords (set_bubble moved fetch_stage) decode_stage
        (set_bubble-HasWords moved fetch_stage words))
      words
