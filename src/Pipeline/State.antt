-- ===== src/Pipeline/State.antt =====
-- The data of Core/include/Pipeline.h. The registers, the program counter and the instruction memory
-- belong to the core; the pipeline reaches them through pointers, and here holds them.
use multicore_proccessor.Common.{
  ℕ, Bool, false, Option, none, ◌==◌, if◌then◌else◌, update, uint16_max,
}
use multicore_proccessor.Opcodes.{OpcodeFunction}
use multicore_proccessor.Cache.State.{CacheData, Shared}

-- `PipelineSM_e`: the stages as indices of `pipe_stages`.
abbrev pub fetch_stage : ℕ
fetch_stage = 0

abbrev pub decode_stage : ℕ
decode_stage = 1

abbrev pub execute_stage : ℕ
execute_stage = 2

abbrev pub mem_stage : ℕ
mem_stage = 3

abbrev pub write_back_stage : ℕ
write_back_stage = 4

abbrev pub pipeline_size : ℕ
pipeline_size = 5

-- `PipelineStage_s`; its member `state` is its own index. A null `operation` is `none`.
pub record PipelineStage : Type 0 where
  pub pc : ℕ
  pub instruction : ℕ
  pub execute_result : ℕ
  pub operation : Option OpcodeFunction

-- `PiplineStatistics_s`
pub record PiplineStatistics : Type 0 where
  pub decode_stalls : ℕ
  pub mem_stalls : ℕ

-- `Opcode_function_params_s` between two calls: `rd` points to the result of the stage of that index.
pub record OpcodeParams : Type 0 where
  pub rd : ℕ
  pub rs : ℕ
  pub rt : ℕ

-- `Pipeline_s`
pub record Pipeline : Type 0 where
  pub halted : Bool
  pub data_hazard_stall : Bool
  pub memory_stall : Bool
  pub instructions : ℕ → ℕ
  pub core_registers : ℕ → ℕ
  pub program_counter : ℕ
  pub cache_data : CacheData
  pub pipe_stages : ℕ → PipelineStage
  pub opcode_params : OpcodeParams
  pub statistics : PiplineStatistics

-- A pipeline, and what the cores share.
pub record Machine : Type 0 where
  pub pipeline : Pipeline
  pub shared : Shared

-- An empty stage has the program counter UINT16_MAX.
abbrev pub is_bubble : PipelineStage → Bool
is_bubble stage = stage.pc == uint16_max

abbrev pub set_stage : Pipeline → ℕ → PipelineStage → Pipeline
set_stage p i stage = record p { pipe_stages = update p.pipe_stages i stage }

-- `pipe_stages[i].pc = UINT16_MAX`
abbrev pub set_bubble : Pipeline → ℕ → Pipeline
set_bubble p i = set_stage p i (record (p.pipe_stages i) { pc = uint16_max })

-- `Pipeline_Init`, over the instructions, the registers and the cache that the core gives it
unfoldable pub init : (ℕ → ℕ) → (ℕ → ℕ) → CacheData → Pipeline
init instructions registers cache = record {
  halted = false;
  data_hazard_stall = false;
  memory_stall = false;
  instructions = instructions;
  core_registers = registers;
  program_counter = 0;
  cache_data = cache;
  pipe_stages = λ i. record {
    pc = if i == fetch_stage then 0 else uint16_max;
    instruction = 0;
    execute_result = 0;
    operation = none;
  };
  opcode_params = record { rd = 0; rs = 0; rt = 0 };
  statistics = record { decode_stalls = 0; mem_stalls = 0 };
}
