-- ===== src/Core.antt =====
-- Core/src/Core.c and Core/include/Core.h: a core around its pipeline.
pub mod Trace
pub mod Imem
pub mod Words
pub mod Draining
use multicore_proccessor.Common.{
  ℕ, ◌+◌, ◌-◌, ◌^◌, Bool, true, false, not, ◌&&◌, Option, none, some, List, [], ◌∷◌, ltb, ◌==◌,
  if◌then◌else◌, update, u32, ◌>>=◌,
}
use multicore_proccessor.Instruction.{instructions_memory_size}
use multicore_proccessor.Cache.State.{Shared}
use multicore_proccessor.Cache.State as CacheState
use multicore_proccessor.Pipeline.State.{Pipeline, Machine}
use multicore_proccessor.Pipeline.State as PipelineState
use multicore_proccessor.Pipeline.Control.{execute_pipeline, bubble_commands, pipe_flushed}

-- A line of the core's trace: the cycle, the program counter of each stage, and the registers from
-- before the cycle.
pub record TraceLine : Type 0 where
  pub cycle : ℕ
  pub stage_pc : ℕ → ℕ
  pub registers : ℕ → ℕ

-- `Core_s` with its `Statistics_s`; the registers, the program counter and the instruction memory are
-- in the pipeline. The trace has its last line first.
pub record Core : Type 0 where
  pub is_halted : Bool
  pub index : ℕ
  pub pipeline : Pipeline
  pub cycles : ℕ
  pub instructions : ℕ
  pub trace : List TraceLine

-- The loop of `init_memory` over the words that `fscanf` reads, and the number of lines it loads.
unfoldable pub load_lines : List ℕ → ℕ → (ℕ → ℕ) → ℕ × (ℕ → ℕ)
load_lines [] line memory = (line, memory)
load_lines (x ∷ xs) line memory =
    let rest = load_lines xs (line + 1) (update memory line x) in
    if ltb line instructions_memory_size then rest else (line, memory)

-- A core as `CoresInit` zeroes it. The cache of such a core is not registered with the bus.
unfoldable zeroed : Core
zeroed = record {
  is_halted = false;
  index = 0;
  pipeline = record (PipelineState.init (λ _. 0) (λ _. 0) (CacheState.init 0)) {
    pipe_stages = λ _. record { pc = 0; instruction = 0; execute_result = 0; operation = none };
  };
  cycles = 0;
  instructions = 0;
  trace = [];
}

-- A core with no instructions is halted, and the rest of it is left as it was.
unfoldable pub started : ℕ → ℕ × (ℕ → ℕ) → Core
unfolding zeroed PipelineState.init CacheState.init
started id (lines, memory) = if lines == 0 then record zeroed { is_halted = true } else record {
  is_halted = false;
  index = id;
  pipeline = PipelineState.init memory (λ _. 0) (CacheState.init id);
  cycles = 2 ^ 32 - 1;
  instructions = 0;
  trace = [];
}

-- `Core_Init`
unfoldable pub init : ℕ → List ℕ → Core
unfolding started load_lines PipelineState.init CacheState.init
init id program = started id (load_lines program 0 (λ _. 0))

-- `update_statistics`
unfoldable pub update_statistics : Core → Core
update_statistics c =
    let p = c.pipeline in
    let counted = record c { cycles = u32 (c.cycles + 1) } in
    if not p.halted && not p.memory_stall && not p.data_hazard_stall
    then record counted { instructions = u32 (c.instructions + 1) }
    else counted

-- `write_trace`, and the stages' move at the end of the cycle
unfoldable finish_cycle : Core → (ℕ → ℕ) → Machine → Core × Shared
unfolding bubble_commands
finish_cycle c registers m = (
  record c {
    pipeline = bubble_commands m.pipeline;
    trace =
        record {
          cycle = c.cycles;
          stage_pc = λ stage. (m.pipeline.pipe_stages stage).pc;
          registers = registers;
        }
        ∷ c.trace;
  },
  m.shared,
)

-- `Core_Iter`; `none` where the pipeline does what C leaves undefined.
unfoldable pub iter : Core → Shared → Option (Core × Shared)
unfolding pipe_flushed update_statistics finish_cycle execute_pipeline
iter c s =
    if c.is_halted
    then some (c, s)
    else if pipe_flushed c.pipeline
    then some (record c { is_halted = true }, s)
    else execute_pipeline (record { pipeline = c.pipeline; shared = s }) >>= λ m.
        some (finish_cycle (update_statistics c) c.pipeline.core_registers m)
