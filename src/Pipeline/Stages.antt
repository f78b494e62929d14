-- ===== src/Pipeline/Stages.antt =====
-- The stages of Core/src/Pipeline.c. `none` is what C leaves undefined: a fetch past the instruction
-- memory, a read past the table of operations, or a call of a null operation.
use multicore_proccessor.Common.{
  ℕ, ◌+◌, Bool, true, false, not, ◌&&◌, Option, none, some, ltb, ◌==◌, if◌then◌else◌, update, u16,
  u32, defined, ◌>>=◌, ◌>>◌,
}
use multicore_proccessor.Instruction
use multicore_proccessor.Instruction.{
  immediate_register_index, program_counter_register_num, instructions_memory_size,
}
use multicore_proccessor.Opcodes.Code
use multicore_proccessor.Opcodes.{
  OpcodeFunction, Params, opcode_mapping, is_branch_resulotion, is_memory_command,
}
use multicore_proccessor.Cache.State.{CacheData, Shared}
use multicore_proccessor.Cache.Access.{read_data, write_data}
use multicore_proccessor.Pipeline.State.{
  Pipeline, Machine, fetch_stage, decode_stage, execute_stage, mem_stage, write_back_stage,
  set_stage,
}

-- The immediate goes to register 1, and the result starts as the value of `rd`.
unfoldable pub prepare_registers_params : Pipeline → ℕ → Pipeline
prepare_registers_params p stage =
    let command = (p.pipe_stages stage).instruction in
    let registers =
      update p.core_registers immediate_register_index (Instruction.immediate command) in
    record p {
      core_registers = registers;
      pipe_stages =
          update p.pipe_stages stage
            (record (p.pipe_stages stage) { execute_result = registers (Instruction.rd command) });
      opcode_params = record {
        rd = stage;
        rs = registers (Instruction.rs command);
        rt = registers (Instruction.rt command);
      };
    }

unfoldable pub store_result : Pipeline → Params → Pipeline
store_result p out =
    let target = p.opcode_params.rd in
    record p {
      program_counter = out.pc;
      pipe_stages =
          update p.pipe_stages target (record (p.pipe_stages target) { execute_result = out.rd });
    }

-- `pipe_stages[stage].operation(&opcode_params)`
unfoldable pub call_operation : Pipeline → ℕ → Option Pipeline
unfolding store_result
call_operation p stage = do
  operation ← (p.pipe_stages stage).operation
  out ← operation (record {
    rd = (p.pipe_stages p.opcode_params.rd).execute_result;
    rs = p.opcode_params.rs;
    rt = p.opcode_params.rt;
    pc = p.program_counter;
  })
  some (store_result p out)

unfoldable pub fetch : Pipeline → Option Pipeline
fetch p = if p.memory_stall then some p else do
  defined (ltb p.program_counter instructions_memory_size)
  some (record p {
    pipe_stages = update p.pipe_stages fetch_stage (record (p.pipe_stages fetch_stage) {
      pc = p.program_counter;
      instruction = p.instructions p.program_counter;
    });
    program_counter =
        if p.data_hazard_stall then p.program_counter else u16 (p.program_counter + 1);
  })

-- The branch of an instruction that is already decoded.
unfoldable pub resolve_branch : Pipeline → Option Pipeline
resolve_branch p = call_operation (prepare_registers_params p decode_stage) decode_stage

unfoldable pub set_operation : Pipeline → Option OpcodeFunction → Pipeline
set_operation p operation =
    set_stage p decode_stage (record (p.pipe_stages decode_stage) { operation = operation })

unfoldable pub decode : Pipeline → Option Pipeline
unfolding set_operation resolve_branch
decode p =
    let opcode = Instruction.opcode (p.pipe_stages decode_stage).instruction in
    if opcode == Code.halt then some (record p { halted = true }) else do
      operation ← opcode_mapping opcode
      let decoded = set_operation p operation
      if is_branch_resulotion opcode then resolve_branch decoded else some decoded

unfoldable pub execute : Pipeline → Option Pipeline
execute p =
    let opcode = Instruction.opcode (p.pipe_stages execute_stage).instruction in
    if not (is_branch_resulotion opcode)
      && not (is_memory_command opcode)
      && not (opcode == Code.halt)
    then call_operation (prepare_registers_params p execute_stage) execute_stage
    else some p

-- What a read brings: `none` is a stall.
unfoldable pub loaded : Pipeline → Option ℕ × CacheData × Shared → Machine
loaded p (none, c, s) = record {
  pipeline = record p { cache_data = c; memory_stall = true };
  shared = s;
}
loaded p (some word, c, s) = record {
  pipeline =
      record (set_stage p mem_stage (record (p.pipe_stages mem_stage) { execute_result = word })) {
        cache_data = c;
        memory_stall = false;
      };
  shared = s;
}

unfoldable pub stored : Pipeline → Bool × CacheData × Shared → Machine
stored p (written, c, s) = record {
  pipeline = record p { cache_data = c; memory_stall = not written };
  shared = s;
}

unfoldable pub access : Pipeline → Shared → ℕ → Machine
unfolding loaded stored
access p s opcode =
    let address = u32 (p.opcode_params.rs + p.opcode_params.rt) in
    if opcode == Code.lw
    then loaded p (read_data p.cache_data s address)
    else stored p
        (write_data p.cache_data s address (p.pipe_stages p.opcode_params.rd).execute_result)

unfoldable pub mem : Machine → Machine
unfolding access prepare_registers_params is_memory_command
mem m =
    let opcode = Instruction.opcode (m.pipeline.pipe_stages mem_stage).instruction in
    if is_memory_command opcode
    then access (prepare_registers_params m.pipeline mem_stage) m.shared opcode
    else m

unfoldable pub writeback : Pipeline → Pipeline
writeback p =
    let command = (p.pipe_stages write_back_stage).instruction in
    let index =
      if Instruction.opcode command == Code.jal
      then program_counter_register_num
      else Instruction.rd command in
    record p {
      core_registers =
          update p.core_registers index (p.pipe_stages write_back_stage).execute_result;
    }
