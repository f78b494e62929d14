-- ===== src/Tests/Core.antt =====
-- Runs of, and witnesses about, Core/src/Core.c.
use multicore_proccessor.Common.{
  [], ◌∷◌, ◌+◌, Bool, Option, none, some, ◌≡◌, refl, true, false, arith,
}
use multicore_proccessor.Bus.State
use multicore_proccessor.Cache.State.{CacheData, Mesi, Shared}
use multicore_proccessor.Cache.Access.{read_data}
use multicore_proccessor.Opcodes.{opcode_mapping, is_branch_resulotion, is_memory_command}
use multicore_proccessor.Pipeline.Stages.{
  fetch, decode, execute, mem, writeback, prepare_registers_params, call_operation,
}
use multicore_proccessor.Pipeline.Control.{pipe_flushed}
use multicore_proccessor.Pipeline.Hazard.{is_pipeline_needs_data_hazard_stall}
use multicore_proccessor.Core.{Core, init, iter}
use multicore_proccessor.Core.Draining.{with_cache, Iterations, here, moved, other, Iterations-ends}

abbrev quiet : Shared
quiet = record { bus = State.initial; read_miss_occurred = false; write_miss_occurred = false }

-- add $r2, $zero, $imm, 5; halt
abbrev started_core : Core
started_core = init 0 (0x00201005 ∷ 0x14000000 ∷ [])

abbrev result_or : Option (Core × Shared) → Core × Shared
result_or none = (started_core, quiet)
result_or (some r) = r

abbrev stepped : Core × Shared
stepped = result_or (iter started_core quiet)

started_core_runs : iter started_core quiet ≡ some (stepped.0, stepped.1)
unfolding iter init fetch is_pipeline_needs_data_hazard_stall
started_core_runs = refl

-- lw $r2, $zero, $imm, 3; halt
abbrev loading_core : Core
loading_core = init 0 (0x10201003 ∷ 0x14000000 ∷ [])

abbrev next : Core → Core
next c = (result_or (iter c quiet)).0

-- The halt has been decoded, and the load is to read the cache.
abbrev halting : Core
halting = next (next (next loading_core))

-- A cache that holds the first blocks.
abbrev filled : CacheData
filled = record halting.pipeline.cache_data {
  tsram = λ _. record { tag = 0; mesi = Mesi.exclusive };
  dsram = λ x. x + 40;
}

abbrev served : Core → Core
served c = next (with_cache c filled)

abbrev waiting : Core
waiting = next (with_cache halting halting.pipeline.cache_data)

abbrev one : Core
one = served waiting

abbrev two : Core
two = served one

abbrev three : Core
three = served two

abbrev four : Core
four = served three

abbrev is_result : Option (Core × Shared) → Bool
is_result none = false
is_result (some r) = true

result_lem :
    (m : Option (Core × Shared)) → is_result m ≡ true → m ≡ some ((result_or m).0, (result_or m).1)
result_lem none h = absurd (cc h)
result_lem (some r) h = refl

all_run :
    (is_result (iter (with_cache halting halting.pipeline.cache_data) quiet) ≡ true)
    × (is_result (iter (with_cache waiting filled) quiet) ≡ true)
    × (is_result (iter (with_cache one filled) quiet) ≡ true)
    × (is_result (iter (with_cache two filled) quiet) ≡ true)
    × (is_result (iter (with_cache three filled) quiet) ≡ true)
unfolding iter init fetch decode execute mem writeback read_data is_pipeline_needs_data_hazard_stall
    prepare_registers_params call_operation opcode_mapping is_branch_resulotion is_memory_command
all_run = (refl, refl, refl, refl, refl)

-- The first call misses, and the next ones find the block in the cache.
stalls :
    (waiting.pipeline.memory_stall ≡ true)
    × (one.pipeline.memory_stall ≡ false)
    × (two.pipeline.memory_stall ≡ false)
    × (three.pipeline.memory_stall ≡ false)
    × (four.pipeline.memory_stall ≡ false)
unfolding iter init fetch decode execute mem writeback read_data is_pipeline_needs_data_hazard_stall
    prepare_registers_params call_operation opcode_mapping is_branch_resulotion is_memory_command
stalls = (refl, refl, refl, refl, refl)

draining : Iterations halting 4 four
draining =
    moved filled quiet
      (moved filled quiet
        (moved filled quiet
          (moved filled quiet
            (other halting.pipeline.cache_data quiet here (result_lem _ all_run.0))
            (result_lem _ all_run.1) stalls.1)
          (result_lem _ all_run.2) stalls.2)
        (result_lem _ all_run.3) stalls.3)
      (result_lem _ all_run.4) stalls.4

halting_lem : (halting.pipeline.halted ≡ true) × (halting.is_halted ≡ false)
unfolding iter init fetch decode execute mem writeback read_data is_pipeline_needs_data_hazard_stall
    prepare_registers_params call_operation opcode_mapping is_branch_resulotion is_memory_command
halting_lem = (refl, refl)

Iterations-ends_example :
    (pipe_flushed four.pipeline ≡ true)
    × (iter (with_cache four filled) quiet
        ≡ some (record (with_cache four filled) { is_halted = true }, quiet))
Iterations-ends_example =
    Iterations-ends filled quiet halting_lem.0 halting_lem.1 draining (omega arith)
