-- ===== src/Simulator.antt =====
-- MulticoreProcessor.c from the texts that a run reads to the texts that it writes: what `main` does
-- once the files are open, with Core_Init and Core_Teaddown of Core/src/Core.c.
pub mod Ends
pub mod Statistics
pub mod Memout
use multicore_proccessor.Common.{ℕ, ◌==◌, false, not, none, some}
use multicore_proccessor.Text.Bytes.{Bytes}
use multicore_proccessor.Bus.State
use multicore_proccessor.Memory.{Memory}
use multicore_proccessor.Memory.Image.{load_text, print_memory}
use multicore_proccessor.Core.{Core, started}
use multicore_proccessor.Core.Imem.{init_memory}
use multicore_proccessor.Processor.{Processor, Outcome, run}
use multicore_proccessor.Report.{
  print_register_file, print_statistics, trace_text, print_dsram, print_tsram, bus_trace_text,
}

-- The contents of `MeminFile` and of each core's `InstructionMemFile`.
pub record Inputs : Type 0 where
  pub memin : Bytes
  pub imem : ℕ → Bytes

-- What is written to the other files of a core.
pub record CoreTexts : Type 0 where
  pub reg : Bytes
  pub trace : Bytes
  pub ds_ram : Bytes
  pub ts_ram : Bytes
  pub stats : Bytes

-- What is written to all files.
pub record Outputs : Type 0 where
  pub memout : Bytes
  pub bus_trace : Bytes
  pub cores : ℕ → CoreTexts

-- `Core_Init`, on the text of the core's file.
unfoldable pub core_init : ℕ → Bytes → Core
unfolding started init_memory
core_init id text = started id (init_memory text)

-- `CoresInit`, where the main memory is loaded. A core that loads no line returns before its cache is
-- registered.
unfoldable pub initialize : (ℕ → ℕ) → (ℕ → Bytes) → Processor
unfolding core_init init_memory
initialize words imem = record {
  cores = λ i. core_init i (imem i);
  shared = record { bus = State.initial; read_miss_occurred = false; write_miss_occurred = false };
  memory = record { words = words; counter = 0; transaction = false };
  registered = λ i. not ((init_memory (imem i)).0 == 0);
}

-- `Core_Teaddown`, with the trace that the cycles have written before it.
unfoldable pub core_teardown : Core → CoreTexts
unfolding print_register_file print_statistics trace_text print_dsram print_tsram
core_teardown c = record {
  reg = print_register_file c;
  trace = trace_text c.trace;
  ds_ram = print_dsram c.pipeline.cache_data;
  ts_ram = print_tsram c.pipeline.cache_data;
  stats = print_statistics c;
}

-- The loop over the cores after the run, and `MainMemory_PrintData`.
unfoldable pub teardown : Processor → Outputs
unfolding core_teardown bus_trace_text print_memory
teardown p = record {
  memout = print_memory p.memory;
  bus_trace = bus_trace_text p.shared.bus.trace;
  cores = λ i. core_teardown (p.cores i);
}

-- What `main` comes to: the texts, a step that C leaves undefined, or not its end with this fuel.
pub data Result : Type 0 where
  written : Outputs → Result
  undefined : Result
  unfinished : Result

unfoldable pub finish : Outcome → Result
unfolding teardown
finish (Outcome.halted p) = written (teardown p)
finish Outcome.fault = undefined
finish (Outcome.running p) = unfinished

-- `main`, with fuel for the loop of `MainMemory_Init` and for the cycles.
unfoldable pub main : ℕ → Inputs → Result
unfolding load_text initialize finish run
main fuel files = elim (load_text fuel files.memin 0 (λ _. 0)) [
  | none ↦ unfinished
  | some words ↦ finish (run fuel (initialize words files.imem))
]
