-- ===== src/Instruction.antt =====
-- `InstructionFormat_s` and the register numbers of Interface/include/Helpers.h.
use multicore_proccessor.Common.{ℕ, bits}

abbrev pub immediate : ℕ → ℕ
immediate command = bits command 0 12

abbrev pub rt : ℕ → ℕ
rt command = bits command 12 4

abbrev pub rs : ℕ → ℕ
rs command = bits command 16 4

abbrev pub rd : ℕ → ℕ
rd command = bits command 20 4

abbrev pub opcode : ℕ → ℕ
opcode command = bits command 24 8

abbrev pub immediate_register_index : ℕ
immediate_register_index = 1

abbrev pub zero_register_index : ℕ
zero_register_index = 0

abbrev pub program_counter_register_num : ℕ
program_counter_register_num = 15

-- INSTRUCTIONS_MEMORY_SIZE of Core/include/Core.h
abbrev pub instructions_memory_size : ℕ
instructions_memory_size = 1024
