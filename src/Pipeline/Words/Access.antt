-- ===== src/Pipeline/Words/Access.antt =====
-- The width of the words of a pipeline through the mem stage of Core/src/Pipeline.c.
use multicore_proccessor.Common.{ℕ, ◌+◌, Bool, Option, none, some, IsWordArray, if-all, u32, ◌==◌}
use multicore_proccessor.Instruction
use multicore_proccessor.Instruction.{
  immediate_register_index, program_counter_register_num, instructions_memory_size,
}
use multicore_proccessor.Opcodes.Code
use multicore_proccessor.Opcodes.{is_memory_command}
use multicore_proccessor.Bus.Iteration.Words as BusWords
use multicore_proccessor.Cache.State.{CacheData, Shared}
use multicore_proccessor.Cache.Access.{read_data, write_data}
use multicore_proccessor.Cache.Words.{IsWordOption, read_data-words, write_data-words}
use multicore_proccessor.Pipeline.State.{Pipeline, Machine, mem_stage}
use multicore_proccessor.Pipeline.Stages.{prepare_registers_params, mem, loaded, stored, access}
use multicore_proccessor.Pipeline.Words.{
  HasWords, HoldsWords, set_stage-HasWords, prepare_registers_params-HasWords,
}

loaded-HoldsWords :
    (p : Pipeline) (r : Option ℕ × CacheData × Shared)
    → HasWords p
    → IsWordOption r.0
    → IsWordArray r.1.dsram
    → BusWords.HasWords r.2.bus
    → HoldsWords (loaded p r)
unfolding loaded
loaded-HoldsWords p (none, c, s) h w k b = record {
  pipeline = record {
    registers = h.registers;
    stages = h.stages;
    rs = h.rs;
    rt = h.rt;
    pc = h.pc;
    cache = k;
  };
  bus = b;
}
loaded-HoldsWords p (some word, c, s) h w k b =
    let stage = record (p.pipe_stages mem_stage) { execute_result = word } in
    let set =
      set_stage-HasWords p mem_stage stage h
        (record { result = w; operation = (h.stages mem_stage).operation }) in
    record {
      pipeline = record {
        registers = h.registers;
        stages = set.stages;
        rs = h.rs;
        rt = h.rt;
        pc = h.pc;
        cache = k;
      };
      bus = b;
    }

stored-HoldsWords :
    (p : Pipeline) (r : Bool × CacheData × Shared)
    → HasWords p
    → IsWordArray r.1.dsram
    → BusWords.HasWords r.2.bus
    → HoldsWords (stored p r)
unfolding stored
stored-HoldsWords p (written, c, s) h k b = record {
  pipeline = record {
    registers = h.registers;
    stages = h.stages;
    rs = h.rs;
    rt = h.rt;
    pc = h.pc;
    cache = k;
  };
  bus = b;
}

access-HoldsWords :
    (p : Pipeline) (s : Shared) (opcode : ℕ)
    → HasWords p
    → BusWords.HasWords s.bus
    → HoldsWords (access p s opcode)
unfolding access
access-HoldsWords p s opcode h b =
    let address = u32 (p.opcode_params.rs + p.opcode_params.rt) in
    let word = (p.pipe_stages p.opcode_params.rd).execute_result in
    let (loads, read_cache, read_bus) = read_data-words p.cache_data s address h.cache b in
    let (write_cache, write_bus) =
      write_data-words p.cache_data s address word h.cache b (h.stages p.opcode_params.rd).result in
    if-all HoldsWords (opcode == Code.lw) (loaded p (read_data p.cache_data s address))
      (stored p (write_data p.cache_data s address word))
      (loaded-HoldsWords p (read_data p.cache_data s address) h loads read_cache read_bus)
      (stored-HoldsWords p (write_data p.cache_data s address word) h write_cache write_bus)

pub mem-HoldsWords : (m : Machine) → HoldsWords m → HoldsWords (mem m)
unfolding mem
mem-HoldsWords m h =
    let opcode = Instruction.opcode (m.pipeline.pipe_stages mem_stage).instruction in
    let prepared = prepare_registers_params m.pipeline mem_stage in
    if-all HoldsWords (is_memory_command opcode) (access prepared m.shared opcode) m
      (access-HoldsWords prepared m.shared opcode
        (prepare_registers_params-HasWords m.pipeline mem_stage h.pipeline) h.bus)
      h
