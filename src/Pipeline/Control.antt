-- ===== src/Pipeline/Control.antt =====
-- What drives the stages: `execute_stages`, `Pipeline_Execute`, `Pipeline_BubbleCommands`,
-- `Pipeline_PipeFlushed` and the statistics of Core/src/Pipeline.c.
use multicore_proccessor.Common.{
  ℕ, zero, suc, ◌+◌, ◌-◌, Bool, not, ◌&&◌, Option, none, some, ◌==◌, if◌then◌else◌, u32, uint16_max,
  ◌>>=◌,
}
use multicore_proccessor.Pipeline.State.{
  Pipeline, PipelineStage, Machine, fetch_stage, decode_stage, execute_stage, mem_stage,
  write_back_stage, pipeline_size, is_bubble, set_stage, set_bubble,
}
use multicore_proccessor.Pipeline.Hazard.{is_pipeline_needs_data_hazard_stall}
use multicore_proccessor.Pipeline.Stages.{fetch, decode, execute, mem, writeback}

-- A stage that works on the pipeline alone.
abbrev pub local : (Pipeline → Option Pipeline) → Machine → Option Machine
local stage m = do p ← stage m.pipeline; some (record m { pipeline = p })

-- The table `pipe_functions`. No loop leads past its end.
unfoldable pub pipe_functions : ℕ → Machine → Option Machine
pipe_functions zero = local fetch
pipe_functions (suc zero) = local decode
pipe_functions (suc (suc zero)) = local execute
pipe_functions (suc (suc (suc zero))) = λ m. some (mem m)
pipe_functions (suc (suc (suc (suc zero)))) = local (λ p. some (writeback p))
pipe_functions (suc (suc (suc (suc (suc _))))) = λ m. none

-- A stage runs if it is no bubble.
unfoldable pub run_stage : ℕ → Machine → Option Machine
unfolding pipe_functions
run_stage stage m =
    if not (is_bubble (m.pipeline.pipe_stages stage)) then pipe_functions stage m else some m

-- The loop from `stage` on, of which `n` rounds are left.
unfoldable pub run_stages : ℕ → ℕ → Machine → Option Machine
unfolding run_stage
run_stages zero stage m = some m
run_stages (suc n) stage m = run_stage stage m >>= λ m'. run_stages n (stage + 1) m'

-- `memory_stall ? MEM : data_hazard_stall ? EXECUTE : DECODE`
abbrev pub first_stage : Pipeline → ℕ
first_stage p =
    if p.memory_stall
    then mem_stage
    else if p.data_hazard_stall
    then execute_stage
    else decode_stage

unfoldable pub execute_stages : Machine → Option Machine
unfolding pipe_functions run_stages
execute_stages m =
    let stage = first_stage m.pipeline in
    (if not m.pipeline.halted then pipe_functions fetch_stage m else some m)
    >>= run_stages (pipeline_size - stage) stage

unfoldable pub update_statistics : Pipeline → Pipeline
update_statistics p =
    let decoded =
      if p.data_hazard_stall && not p.memory_stall
      then record p {
        statistics = record p.statistics { decode_stalls = u32 (p.statistics.decode_stalls + 1) };
      }
      else p in
    if p.memory_stall
    then record decoded {
      statistics = record decoded.statistics { mem_stalls = u32 (p.statistics.mem_stalls + 1) };
    }
    else decoded

-- `Pipeline_Execute`
unfoldable pub execute_pipeline : Machine → Option Machine
unfolding execute_stages update_statistics
execute_pipeline m =
    let p = m.pipeline in
    let tested = record p { data_hazard_stall = is_pipeline_needs_data_hazard_stall p } in
    execute_stages (record m { pipeline = tested }) >>= λ m'.
    some (record m' { pipeline = update_statistics m'.pipeline })

-- A stage takes over what stands in the one before it; of a bubble the program counter alone. The
-- `*` before the operation that is copied changes nothing: a null operation is copied as it is.
unfoldable pub advance : PipelineStage → PipelineStage → PipelineStage
advance previous stage = if is_bubble previous then record stage { pc = uint16_max } else previous

-- The loop from the stage `suc stage` down, with its breaks.
unfoldable pub bubble_loop : ℕ → Pipeline → Pipeline
unfolding advance
bubble_loop zero p = p
bubble_loop (suc previous) p =
    let rest = bubble_loop previous (
      set_stage p (suc previous)
        (advance (p.pipe_stages previous) (p.pipe_stages (suc previous)))) in
    if p.memory_stall
    then set_bubble p write_back_stage
    else if p.data_hazard_stall && suc previous == execute_stage
    then set_bubble p execute_stage
    else rest

-- `Pipeline_BubbleCommands`
unfoldable pub bubble_commands : Pipeline → Pipeline
unfolding bubble_loop
bubble_commands p =
    let moved = bubble_loop (pipeline_size - 1) p in
    if p.halted then set_bubble (set_bubble moved fetch_stage) decode_stage else moved

flushed_loop : ℕ → ℕ → Pipeline → Bool → Bool
flushed_loop zero stage p flushed = flushed
flushed_loop (suc n) stage p flushed =
    flushed_loop n (stage + 1) p (flushed && is_bubble (p.pipe_stages stage))

-- `Pipeline_PipeFlushed`
unfoldable pub pipe_flushed : Pipeline → Bool
unfolding flushed_loop
pipe_flushed p = flushed_loop pipeline_size fetch_stage p p.halted
