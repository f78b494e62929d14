-- ===== src/Tests/Pipeline.antt =====
-- Runs of, and witnesses about, Core/src/Pipeline.c.
use multicore_proccessor.Common.{
  ℕ, ◌+◌, ◌*◌, ◌≡◌, ◌↔◌, ◌⊎◌, refl, true, false, Option, none, some, ◌==◌, if◌then◌else◌, arith,
  uint16_max, update,
}
use multicore_proccessor.Bus.State
use multicore_proccessor.Cache.State.{Mesi}
use multicore_proccessor.Cache.Access.{read_data}
use multicore_proccessor.Opcodes.{
  OpcodeFunction, dispatch, opcode_mapping, add, branch_less_then, is_memory_command,
}
use multicore_proccessor.Pipeline.State.{
  Pipeline, PipelineStage, Machine, execute_stage, mem_stage, write_back_stage, decode_stage,
}
use multicore_proccessor.Pipeline.Hazard.{is_pipeline_needs_data_hazard_stall}
use multicore_proccessor.Pipeline.Stages.{
  fetch, decode, execute, mem, writeback, prepare_registers_params,
}
use multicore_proccessor.Pipeline.Control.{execute_pipeline, bubble_commands}
use multicore_proccessor.Pipeline.Conflicts.{Conflict, data_hazard_stall-Conflict}
use multicore_proccessor.Pipeline.Movement.{bubble_commands-pc}
use multicore_proccessor.Pipeline.Operands.{
  params_of, Leaves, IsDecoded, execute-Leaves, decode-Leaves,
}
use multicore_proccessor.Pipeline.LostDecode.{lost_decode_faults}

abbrev stage_with : ℕ → ℕ → Option OpcodeFunction → PipelineStage
stage_with pc command operation = record {
  pc = pc;
  instruction = command;
  execute_result = 77;
  operation = operation;
}

abbrev bubble : PipelineStage
bubble = stage_with uint16_max 0 none

abbrev stages_of :
    PipelineStage
    → PipelineStage
    → PipelineStage
    → PipelineStage
    → PipelineStage
    → ℕ
    → PipelineStage
stages_of f d e m w i =
    if i == 0 then f else if i == 1 then d else if i == 2 then e else if i == 3 then m else w

-- Register `i` holds `10 * i`; the cache holds the block of address 0, whose word `i` is `1000 + i`.
abbrev pipeline_with : (ℕ → PipelineStage) → Pipeline
pipeline_with stages = record {
  halted = false;
  data_hazard_stall = false;
  memory_stall = false;
  instructions = λ _. 0;
  core_registers = λ i. 10 * i;
  program_counter = 5;
  cache_data = record {
    id = 0;
    dsram = λ i. 1000 + i;
    tsram = λ _. record { tag = 0; mesi = Mesi.exclusive };
    statistics = record { read_hits = 0; write_hits = 0; read_misses = 0; write_misses = 0 };
  };
  pipe_stages = stages;
  opcode_params = record { rd = 0; rs = 0; rt = 0 };
  statistics = record { decode_stalls = 0; mem_stalls = 0 };
}

-- add $r2, $r3, $imm, 0xfff
abbrev add_command : ℕ
add_command = 0x00231fff

-- add $zero, $zero, $imm, 1
abbrev add_zero_command : ℕ
add_zero_command = 0x00001001

-- add $r5, $r2, $r4, 0
abbrev uses_command : ℕ
uses_command = 0x00524000

-- blt $r6, $r3, $r4, 0
abbrev blt_command : ℕ
blt_command = 0x0b634000

-- jal $r6, $zero, $zero, 0
abbrev jal_command : ℕ
jal_command = 0x0f600000

-- lw $r2, $zero, $imm, 4
abbrev lw_command : ℕ
lw_command = 0x10201004

abbrev in_flight : Pipeline
in_flight = pipeline_with (
    stages_of (stage_with 5 0 none) (stage_with 4 uses_command (some add))
      (stage_with 3 blt_command (some branch_less_then)) (stage_with 2 add_command (some add))
      (stage_with 1 jal_command none))

abbrev branching : Pipeline
branching =
    pipeline_with
      (stages_of (stage_with 5 0 none) (stage_with 4 blt_command none) bubble bubble bubble)

abbrev adding : Pipeline
adding = pipeline_with (
    stages_of bubble bubble (stage_with 3 add_command (some add)) bubble
      (stage_with 1 add_zero_command (some add)))

hazard_runs : is_pipeline_needs_data_hazard_stall in_flight ≡ true
unfolding is_pipeline_needs_data_hazard_stall
hazard_runs = refl

data_hazard_stall-Conflict_example : (is_pipeline_needs_data_hazard_stall in_flight ≡ true) ↔ (
    Conflict in_flight execute_stage
    ⊎ Conflict in_flight mem_stage
    ⊎ Conflict in_flight write_back_stage)
data_hazard_stall-Conflict_example = data_hazard_stall-Conflict in_flight

-- The instruction in decode waits, and the pipeline is halted.
abbrev held_up : Pipeline
held_up = record in_flight { data_hazard_stall = true; halted = true }

bubble_commands-pc_example : ((bubble_commands held_up).pipe_stages mem_stage).pc ≡ 3
bubble_commands-pc_example = bubble_commands-pc held_up mem_stage (omega arith)

abbrev last_word : Pipeline
last_word = record adding { program_counter = 1023 }

add_result :
    dispatch 0 (params_of adding add_command)
    ≡ some (record (params_of adding add_command) { rd = 30 + 0xfff })
unfolding dispatch add
add_result = refl

adding-IsDecoded : IsDecoded adding 2
unfolding opcode_mapping
adding-IsDecoded = refl

execute-Leaves_example :
    (q : Pipeline) × (execute adding ≡ some q)
    × Leaves adding execute_stage (record (params_of adding add_command) { rd = 30 + 0xfff }) q
execute-Leaves_example = execute-Leaves adding (omega arith) adding-IsDecoded add_result

blt_result :
    dispatch 11 (params_of branching blt_command)
    ≡ some (record (params_of branching blt_command) { pc = 60 })
unfolding dispatch branch_less_then
blt_result = refl

decode-Leaves_example :
    (q : Pipeline) × (decode branching ≡ some q)
    × Leaves branching decode_stage (record (params_of branching blt_command) { pc = 60 }) q
    × IsDecoded q decode_stage
decode-Leaves_example = decode-Leaves branching (omega arith) (omega arith) blt_result

-- A load that has missed, in mem, and an instruction in decode that was held when the miss began.
abbrev waiting : Machine
waiting = record {
  pipeline =
      record (pipeline_with (
        stages_of (stage_with 5 0 none) (stage_with 4 uses_command none) bubble
          (stage_with 2 0x10601004 none) bubble)) { memory_stall = true };
  shared = record { bus = State.initial; read_miss_occurred = true; write_miss_occurred = false };
}

abbrev ended : Machine
ended = record {
  pipeline = record waiting.pipeline {
    core_registers = update (λ i. 10 * i) 1 4;
    memory_stall = false;
    pipe_stages =
        update
          (update waiting.pipeline.pipe_stages 3
            (record (stage_with 2 0x10601004 none) { execute_result = 60 }))
          3 (record (stage_with 2 0x10601004 none) { execute_result = 1004 });
    opcode_params = record { rd = 3; rs = 0; rt = 4 };
  };
  shared = record { bus = State.initial; read_miss_occurred = false; write_miss_occurred = false };
}

waiting_runs : execute_pipeline waiting ≡ some ended
unfolding execute_pipeline fetch mem writeback is_memory_command prepare_registers_params read_data
    is_pipeline_needs_data_hazard_stall
waiting_runs = refl

lost_decode_faults_example : execute (bubble_commands ended.pipeline) ≡ none
lost_decode_faults_example =
    lost_decode_faults waiting {m' = ended} refl refl (omega arith, omega arith, refl) waiting_runs
      refl refl
