-- ===== src/Memory.antt =====
-- Interface/src/MainMemory.c: the main memory.
pub mod Timing
pub mod Contents
pub mod Image
pub mod Words
use multicore_proccessor.Common.{
  ℕ, zero, suc, ◌+◌, ◌-◌, ◌%◌, ◌^◌, Bool, true, false, List, [], ◌∷◌, ltb, leb, ◌==◌, if◌then◌else◌,
  update, u8, u16,
}
use multicore_proccessor.Bus.Packet.{Packet, Command, main_memory}

abbrev pub main_memory_size : ℕ
main_memory_size = 0x200000

-- `gMemory`, `counter` and `gMemoryTransaction`
pub record Memory : Type 0 where
  pub words : ℕ → ℕ
  pub counter : ℕ
  pub transaction : Bool

-- The loop of `MainMemory_Init` over the words that `fscanf` reads; the index is a `uint16_t`, so
-- its test against the memory's size never fails.
load_lines : List ℕ → ℕ → (ℕ → ℕ) → ℕ → ℕ
load_lines [] line words = words
load_lines (x ∷ xs) line words =
    if ltb line main_memory_size
    then load_lines xs (u16 (line + 1)) (update words line x)
    else words

unfoldable pub init : List ℕ → Memory
unfolding load_lines
init lines = record { words = load_lines lines 0 (λ _. 0); counter = 0; transaction = false }

unfoldable pub direct_write : Memory → ℕ → ℕ → Memory
direct_write m address word =
    if ltb address main_memory_size then record m { words = update m.words address word } else m

-- `packet->bus_addr & (MAIN_MEMORY_SIZE - 1)`: the size is a power of two.
abbrev pub masked : ℕ → ℕ
masked address = address % main_memory_size

process_read : Memory → Packet → Memory × Packet
process_read m p = (
  m,
  record p {
    bus_origid = main_memory;
    bus_cmd = Command.flush;
    bus_data = m.words (masked p.bus_addr);
  },
)

process_command : Command → Memory → Packet → Memory × Packet
unfolding process_read
process_command Command.bus_rd m p = process_read m p
process_command Command.bus_rd_x m p = process_read m p
process_command Command.flush m p =
    (record m { words = update m.words (masked p.bus_addr) p.bus_data }, p)
process_command Command.no_command m p = (m, p)

unfoldable pub process_memory_word : Memory → Packet → Memory × Packet
unfolding process_command
process_memory_word m p = process_command p.bus_cmd m p

-- The start of a memory transaction: 16 calls of latency, or none for a direct one.
unfoldable pub begin_transaction : Memory → Bool → Memory
begin_transaction m direct =
    if m.transaction then m else record m { transaction = true; counter = if direct then 16 else 0 }

-- After a word: the eighth, at 23, closes the transaction. `counter` is a `uint8_t`.
end_word : Memory × Packet → Bool × Memory × Packet
end_word (m, p) = (
  true,
  record m {
    transaction = if m.counter == 23 then false else m.transaction;
    counter = u8 (m.counter + 1);
  },
  p,
)

-- A call in a transaction: words from the seventeenth call on.
unfoldable pub answer : Memory → Packet → Bool × Memory × Packet
unfolding process_memory_word end_word
answer m p =
    if leb 16 m.counter
    then end_word (process_memory_word m p)
    else (false, record m { counter = u8 (m.counter + 1) }, p)

abbrev pub is_no_command : Command → Bool
is_no_command Command.no_command = true
is_no_command Command.bus_rd = false
is_no_command Command.bus_rd_x = false
is_no_command Command.flush = false

-- The response, the memory and the packet after the call.
unfoldable pub bus_transaction_handler : Memory → Packet → Bool → Bool × Memory × Packet
unfolding begin_transaction answer
bus_transaction_handler m p direct =
    if is_no_command p.bus_cmd then (false, m, p) else answer (begin_transaction m direct) p

-- `for (; length > 0; length--) if (gMemory[length]) break;`
last_used : (ℕ → ℕ) → ℕ → ℕ
last_used words zero = zero
last_used words (suc n) =
    let below = last_used words n in if words (suc n) == 0 then below else suc n

unfoldable pub get_memory_length : Memory → ℕ
unfolding last_used
get_memory_length m = last_used m.words (main_memory_size - 1) + 1
