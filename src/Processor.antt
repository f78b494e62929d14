-- ===== src/Processor.antt =====
-- MulticoreProcessor.c: four cores, the bus and the main memory, cycle by cycle.
pub mod Trace
pub mod Words
pub mod Rounds
use multicore_proccessor.Common.{
  ℕ, zero, suc, ◌+◌, Bool, true, false, not, ◌&&◌, Option, none, some, List, [], ◌∷◌, update, ◌>>=◌,
  ◌>>◌, defined, ◌||◌,
}
use multicore_proccessor.Bus.Packet.{number_of_cores}
use multicore_proccessor.Bus.State
use multicore_proccessor.Bus.Iteration.{Callbacks, Platform}
use multicore_proccessor.Bus.Iteration
use multicore_proccessor.Memory.{Memory, bus_transaction_handler}
use multicore_proccessor.Memory
use multicore_proccessor.Cache.State.{CacheData, Shared}
use multicore_proccessor.Cache.Snoop.{
  shared_signal_handle, cache_snooping_handle, cache_response_handle,
}
use multicore_proccessor.Cache.Access.{read_data, write_data}
use multicore_proccessor.Pipeline.Hazard.{is_pipeline_needs_data_hazard_stall}
use multicore_proccessor.Opcodes.{
  opcode_mapping, is_branch_resulotion, is_memory_command, add, sub, and, or, xor, multiply,
  logic_shift_left, arithmetic_shift_right, logic_shift_right, branch_equal, branch_not_equal,
  branch_less_then, branch_greater_than, branch_less_equal, branch_grater_equal, jump_and_link,
}
use multicore_proccessor.Pipeline.Stages.{
  fetch, decode, execute, mem, writeback, prepare_registers_params, call_operation,
}
use multicore_proccessor.Core.{Core}
use multicore_proccessor.Core

-- What `Cache_RegisterBusHandles` and `MainMemory_Init` register with the bus.
abbrev pub callbacks : Callbacks CacheData Memory
callbacks = record {
  signal = shared_signal_handle;
  snooping = cache_snooping_handle;
  response = cache_response_handle;
  memory = bus_transaction_handler;
}

-- `cores`, the static variables of the bus and of the caches' functions, and the memory.
pub record Processor : Type 0 where
  pub cores : ℕ → Core
  pub shared : Shared
  pub memory : Memory
  pub registered : ℕ → Bool

is_empty : List ℕ → Bool
is_empty [] = true
is_empty (_ ∷ _) = false

-- `MainMemory_Init` and `CoresInit`, on the words of memin and of each core's imem
unfoldable pub init : List ℕ → (ℕ → List ℕ) → Processor
unfolding Memory.init Core.init is_empty
init memin imem = record {
  cores = λ i. Core.init i (imem i);
  shared = record { bus = State.initial; read_miss_occurred = false; write_miss_occurred = false };
  memory = Memory.init memin;
  registered = λ i. not (is_empty (imem i));
}

-- A core with the cache that the bus has left it.
unfoldable set_cache : Core → CacheData → Core
set_cache c cache = record c { pipeline = record c.pipeline { cache_data = cache } }

unfoldable platform : Processor → Platform CacheData Memory
platform p = record {
  bus = p.shared.bus;
  caches = λ i. (p.cores i).pipeline.cache_data;
  memory = p.memory;
}

unfoldable from_platform : Processor → Platform CacheData Memory → Processor
unfolding set_cache
from_platform p after = record p {
  cores = λ i. set_cache (p.cores i) (after.caches i);
  shared = record p.shared { bus = after.bus };
  memory = after.memory;
}

unfoldable registered_loop : ℕ → ℕ → (ℕ → Bool) → Bool
registered_loop zero i registered = true
registered_loop (suc n) i registered = registered i && registered_loop n (i + 1) registered

-- `Bus_Iter`, on the caches of the cores. A cache that is not registered is a null pointer, which its
-- callbacks read through.
unfoldable pub bus_iter : Processor → Option Processor
unfolding platform from_platform registered_loop Iteration.iter Iteration.calls_back
    shared_signal_handle cache_snooping_handle cache_response_handle bus_transaction_handler
    Iteration.release
bus_iter p = do
  defined (
      registered_loop number_of_cores 0 p.registered
      || not (Iteration.calls_back (Iteration.release p.shared.bus)))
  some (from_platform p (Iteration.iter callbacks (platform p)))

-- One core's part of a cycle.
unfoldable run_core : ℕ → Processor → Option Processor
unfolding Core.iter
run_core i p = Core.iter (p.cores i) p.shared >>= λ result.
    some (record p { cores = update p.cores i result.0; shared = result.1 })

-- The loop over the cores from `i` on, of which `n` are left.
unfoldable pub run_cores : ℕ → ℕ → Processor → Option Processor
unfolding run_core
run_cores zero i p = some p
run_cores (suc n) i p = run_core i p >>= λ p'. run_cores n (i + 1) p'

-- A round of the loop of `main`
unfoldable pub cycle : Processor → Option Processor
unfolding bus_iter run_cores
cycle p = bus_iter p >>= λ p'. run_cores number_of_cores 0 p'

halted_loop : ℕ → ℕ → Processor → Bool → Bool
halted_loop zero i p halted = halted
halted_loop (suc n) i p halted = halted_loop n (i + 1) p (halted && (p.cores i).is_halted)

-- `ProcessorHalted`
unfoldable pub processor_halted : Processor → Bool
unfolding halted_loop
processor_halted p = halted_loop number_of_cores 0 p true

-- What the loop of `main` comes to: the processor that has halted, a step that C leaves undefined, or
-- the processor after `fuel` cycles.
pub data Outcome : Type 0 where
  halted : Processor → Outcome
  fault : Outcome
  running : Processor → Outcome

unfoldable pub run : ℕ → Processor → Outcome
unfolding processor_halted cycle fetch decode execute mem writeback read_data write_data
    is_pipeline_needs_data_hazard_stall prepare_registers_params call_operation opcode_mapping
    is_branch_resulotion is_memory_command add sub and or xor multiply logic_shift_left
    arithmetic_shift_right logic_shift_right branch_equal branch_not_equal branch_less_then
    branch_greater_than branch_less_equal branch_grater_equal jump_and_link
run zero p = running p
run (suc fuel) p = elim (processor_halted p) [
  | true ↦ halted p
  | false ↦ elim (cycle p) [ none ↦ fault | some p' ↦ run fuel p' ]
]
