-- ===== src/Bus/Packet.antt =====
-- Interface/include/Bus.h: the packets on the bus.
use multicore_proccessor.Common.{ℕ, Bool, false}

-- `Bus_originator_e`: a core's number is its own, from 0 to 3.
abbrev pub Originator : Type 0
Originator = ℕ

abbrev pub main_memory : Originator
main_memory = 4

abbrev pub invalid_originator : Originator
invalid_originator = 0xffff

-- NUMBER_OF_CORES of Interface/include/Helpers.h
abbrev pub number_of_cores : ℕ
number_of_cores = 4

-- `Bus_command_s`
pub data Command : Type 0 where
  no_command bus_rd bus_rd_x flush : Command

-- `Bus_packet_s`
pub record Packet : Type 0 where
  pub bus_original_sender : Originator
  pub bus_origid : Originator
  pub bus_cmd : Command
  pub bus_addr : ℕ
  pub bus_data : ℕ
  pub bus_shared : Bool

-- A request as the caches build it: the members that their initialisers leave out are zero.
abbrev pub request : Originator → Command → ℕ → ℕ → Packet
request origid cmd addr word = record {
  bus_original_sender = 0;
  bus_origid = origid;
  bus_cmd = cmd;
  bus_addr = addr;
  bus_data = word;
  bus_shared = false;
}

unfoldable pub is_flush : Command → Bool
is_flush Command.flush = Bool.true
is_flush Command.bus_rd = false
is_flush Command.bus_rd_x = false
is_flush Command.no_command = false
