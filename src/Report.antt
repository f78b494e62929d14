-- ===== src/Report.antt =====
-- The texts of the files that a run writes, from the state at its end: print_register_file,
-- print_statistics and write_trace of Core/src/Core.c, Pipeline_WriteToTrace of Core/src/Pipeline.c,
-- Cache_PrintData of Core/src/Cache.c and print_bus_status of Interface/src/Bus.c.
pub mod Cycles
use multicore_proccessor.Common.{
  ℕ, zero, suc, ◌+◌, ◌-◌, ◌*◌, ◌^◌, Bool, true, false, List, [], ◌∷◌, ◌++◌, u32, uint16_max, ◌==◌,
  if◌then◌else◌,
}
use multicore_proccessor.Text.Bytes.{Bytes, codes}
use multicore_proccessor.Text.Print.{hex_word, print_words}
use multicore_proccessor.Text.Decimal.{signed_word, hex_padded}
use multicore_proccessor.Bus.Packet.{Packet, Command}
use multicore_proccessor.Bus.State as BusState
use multicore_proccessor.Cache.State.{Mesi, Tsram, CacheData}
use multicore_proccessor.Pipeline.State.{pipeline_size}
use multicore_proccessor.Core.{Core, TraceLine}

-- From START_MUTABLE_REGISTER_INDEX on.
unfoldable pub print_register_file : Core → Bytes
unfolding print_words
print_register_file c = print_words 14 2 c.pipeline.core_registers

-- A line of a name and a number.
unfoldable pub statistic : Bytes → ℕ → Bytes
unfolding signed_word
statistic name v = name ++ b' ' ∷ (signed_word v ++ b'\n' ∷ [])

-- The lines of the statistics but the first.
unfoldable pub later_statistics : Core → Bytes
unfolding statistic
later_statistics c =
    statistic (codes "instructions") (u32 (c.instructions + (2 ^ 32 - 1)))
    ++ statistic (codes "read_hit") c.pipeline.cache_data.statistics.read_hits
    ++ statistic (codes "write_hit") c.pipeline.cache_data.statistics.write_hits
    ++ statistic (codes "read_miss") c.pipeline.cache_data.statistics.read_misses
    ++ statistic (codes "write_miss") c.pipeline.cache_data.statistics.write_misses
    ++ statistic (codes "decode_stall") c.pipeline.statistics.decode_stalls
    ++ statistic (codes "mem_stall") c.pipeline.statistics.mem_stalls

unfoldable pub print_statistics : Core → Bytes
unfolding statistic later_statistics
print_statistics c = statistic (codes "cycles") (u32 (c.cycles + 1)) ++ later_statistics c

-- The loop over the stages, of which `n` are left.
unfoldable pub write_stages : ℕ → ℕ → (ℕ → ℕ) → Bytes
unfolding hex_padded
write_stages zero stage pc = []
write_stages (suc n) stage pc =
    (if pc stage == uint16_max then codes "--- " else hex_padded 1 3 (pc stage) ++ b' ' ∷ [])
    ++ write_stages n (stage + 1) pc

-- `write_regs_to_file`
unfoldable pub write_registers : ℕ → ℕ → (ℕ → ℕ) → Bytes
unfolding hex_word
write_registers zero i registers = []
write_registers (suc n) i registers =
    hex_word (registers i) ++ b' ' ∷ write_registers n (i + 1) registers

unfoldable pub write_trace : TraceLine → Bytes
unfolding signed_word write_stages write_registers
write_trace l =
    signed_word l.cycle
    ++ b' '
      ∷ (write_stages pipeline_size 0 l.stage_pc
          ++ (write_registers 14 2 l.registers ++ b'\n' ∷ []))

-- The text of a trace, whose last line comes first.
unfoldable pub trace_text : List TraceLine → Bytes
unfolding write_trace
trace_text [] = []
trace_text (l ∷ ls) = trace_text ls ++ write_trace l

-- The number of a state in `Cache_mesi_e`
abbrev pub mesi_code : Mesi → ℕ
mesi_code Mesi.invalid = 0
mesi_code Mesi.shared = 1
mesi_code Mesi.exclusive = 2
mesi_code Mesi.modified = 3

-- `data` of `Tsram_s`: the fields from the lowest bit on; the bits above them are zero.
abbrev pub tsram_word : Tsram → ℕ
tsram_word t = t.tag + mesi_code t.mesi * 2 ^ 12

unfoldable pub print_dsram : CacheData → Bytes
unfolding print_words
print_dsram c = print_words 512 0 c.dsram

unfoldable pub print_tsram : CacheData → Bytes
unfolding print_words
print_tsram c = print_words 64 0 (λ i. tsram_word (c.tsram i))

-- The number of a command in `Bus_command_s`
abbrev pub command_code : Command → ℕ
command_code Command.no_command = 0
command_code Command.bus_rd = 1
command_code Command.bus_rd_x = 2
command_code Command.flush = 3

-- A line of the bus trace.
unfoldable pub print_bus_status : BusState.TraceLine → Bytes
unfolding signed_word hex_padded hex_word
print_bus_status l =
    signed_word l.cycle
    ++ b' ' ∷ signed_word l.packet.bus_origid
    ++ b' ' ∷ signed_word (command_code l.packet.bus_cmd)
    ++ b' ' ∷ hex_padded 2 6 l.packet.bus_addr
    ++ b' ' ∷ hex_word l.packet.bus_data
    ++ b' ' ∷ (if l.packet.bus_shared then b'1' else b'0') ∷ b'\n' ∷ []

unfoldable pub bus_trace_text : List BusState.TraceLine → Bytes
unfolding print_bus_status
bus_trace_text [] = []
bus_trace_text (l ∷ ls) = bus_trace_text ls ++ print_bus_status l
