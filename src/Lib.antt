-- ===== src/Lib.antt =====
-- A multi-core processor simulator: four pipelined cores with private MESI caches, a shared bus and
-- a main memory, stepped cycle by cycle (src/MulticoreProccessor), and its assembler (src/Assembler).
--
-- The parts and how they interact. In each cycle `main` (MulticoreProcessor.c) first runs `Bus_Iter`
-- (Interface/src/Bus.c) and then `Core_Iter` (Core/src/Core.c) of each core. A core runs its pipeline
-- (Core/src/Pipeline.c): the stages whose instructions the table of Core/src/Opcodes.c computes, and
-- a mem stage that reads and writes the core's cache (Core/src/Cache.c). A cache that misses queues
-- requests on the bus; a later `Bus_Iter` takes a request up and, word by word, lets each cache snoop
-- it, lets the main memory (Interface/src/MainMemory.c) answer, and hands the word to the requester.
--
-- How the model is built. The static variables and the structures of the C code are records, and a
-- function that changes them takes them and returns them anew. `none`, for a value of the model that
-- is a step, is what C leaves undefined: a null pointer called or read through, an array read past its
-- end, a shift by the width of a word. An array is a function of its index. Words are native natural
-- numbers with their wrap-around written out. The fields of a union of bit-fields are cut out of the
-- word from the lowest bit on, as the compiler of the project's build files lays them out.
--
--   Common        Boolean tests, arrays, words and the chaining of steps
--   Opcodes       Core/src/Opcodes.c and Core/include/Opcodes.h: one function for each of the C
--                 functions, the table `OpcodeMapping`, and the call through it; Opcodes.Arithmetic,
--                 Opcodes.Branch and Opcodes.Shift are about them
--   Instruction   Interface/include/Helpers.h: `InstructionFormat_s` and the register numbers
--   Bus           Bus.Packet is Interface/include/Bus.h; Bus.State has the variables, the queue and
--                 the functions that the caches call, over a list of packets; Bus.Queue is the
--                 queue in its linked nodes; Bus.Iteration is `Bus_Iter` in its parts, over a record
--                 of the callbacks, so that it depends on no cache and no memory;
--                 Bus.Iteration.Quiet is one iteration in which no cache answers, Bus.Iteration.Owned
--                 one in which an owner does
--   Memory        Interface/src/MainMemory.c; Memory.Timing and Memory.Contents are about it;
--                 Memory.Image has the texts that it loads and prints
--   Cache         Core/src/Cache.c: Cache.Address the fields of an address, Cache.State the data,
--                 Cache.Access the reads, writes and evictions, Cache.Snoop the three callbacks,
--                 Cache.Flush the write-back; Cache.ReadWrite, Cache.Misses and Cache.Protocol are
--                 about them
--   Pipeline      Core/src/Pipeline.c: Pipeline.State the data, Pipeline.Hazard the test for hazards,
--                 Pipeline.Stages the five stages, Pipeline.Control what drives and moves them;
--                 Pipeline.Conflicts, Pipeline.Movement, Pipeline.Operands, Pipeline.Standing and
--                 Pipeline.LostDecode are about them; Pipeline.Keeping is what their inductions share
--   Core          Core/src/Core.c: a core around its pipeline, with its trace; Core.Trace and
--                 Core.Draining are about it; Core.Imem is `init_memory` on the text of a file
--   Processor     MulticoreProcessor.c: the cores, the bus and the memory, and the loop of `main`;
--                 Processor.Trace and Processor.Rounds are about it
--   Simulator     MulticoreProcessor.c once the files are open, from the texts that it reads to the texts
--                 that it writes; Simulator.Ends, Simulator.Statistics and Simulator.Memout are
--                 about it
--   Coherence     the bus, the caches and the memory together: Coherence.Snooping one pass of the bus
--                 over the caches, Coherence.Latency the wire that spares the memory its latency,
--                 Coherence.Fetch the fetch of a block from the queue to the cache, Coherence.Supply
--                 that of a block which another core owns, Coherence.Ownership the owners afterwards
--   Text          what the sources use of <string.h> and of printf and scanf, on lists of bytes
--   Assembler     src/Assembler/ca2025asm/ca2025asm/asm.c: Assembler.Names and Assembler.State the tables
--                 and variables, Assembler.Line a round of the loop over the lines, Assembler.Labels
--                 the loop that fixes the labels, Assembler.Whole `main` between its files;
--                 the other modules of it are about these
--   Files         Interface/src/Files.c: the opening of all files and the order in which they are
--                 closed; Files.Failing and Files.Opening are about it
--   Report        the texts that a run writes, from the state at its end; Report.Cycles is about them
--   The modules named Words, of most parts, are about the width of what the part holds.
--   Tests         runs, and the theorems at concrete inputs
--
-- Loops over the cores, the stages, the words and the frames count down their rounds, by structural
-- recursion. `Processor.run` is the loop of `main` on fuel: its outcome says whether the processor
-- halted, a step was undefined, or the fuel ran out; a program need not halt, and no bound is chosen.
-- `Simulator.main` has the same fuel for the loading of the main memory too.
--
-- The assembler reads the text of a program and writes the texts of two memories; the simulator loads
-- them by `fscanf`. A value of the assembler's model that is `undefined` is what C leaves undefined,
-- and `exit` is the call of `exit(1)`. A text has no zero byte. The loop over the lines has a unit of
-- fuel for each byte of the text. The loop of `MainMemory_Init` has fuel too, and need not end. Of a
-- field that is no number `scanf` reads the sign and the prefix, as the C standard says.
--
-- `fopen` is a parameter of Files, a function of the path and the mode that may answer NULL; `fclose`
-- is the list of the arguments of its calls.
--
-- Not modelled: the messages that the programs write to the terminal; the opening of the assembler's
-- three files; the project files, the tests' data and the documents.
-- In the bus, an allocation of its queue is taken to succeed; Bus.Queue has the branch where it fails.
pub mod Common
pub mod Opcodes
pub mod Bus
pub mod Memory
pub mod Cache
pub mod Instruction
pub mod Pipeline
pub mod Core
pub mod Processor
pub mod Coherence
pub mod Text
pub mod Assembler
pub mod Files
pub mod Report
pub mod Simulator
mod Tests
