-- ===== src/Memory/Timing.antt =====
-- How many calls of `bus_transaction_handler` in Interface/src/MainMemory.c a block takes.
use multicore_proccessor.Common.{
  ℕ, zero, suc, ◌+◌, ◌-◌, ◌≤◌, ◌<◌, ◌≡◌, Bool, true, false, leb, if◌then◌else◌, arith, refl,
}
use multicore_proccessor.Bus.Packet.{Packet}
use multicore_proccessor.Memory.{
  Memory, process_memory_word, answer, begin_transaction, bus_transaction_handler, is_no_command,
}

-- A word changes neither the count nor the transaction.
process_memory_word-keeps :
    (m : Memory) (p : Packet)
    → ((process_memory_word m p).0.counter ≡ m.counter)
      × ((process_memory_word m p).0.transaction ≡ m.transaction)
unfolding process_memory_word
process_memory_word-keeps m p = ground arith

-- One call within a transaction, by the count that it finds.
record Call (m : Memory) (result : Bool × Memory × Packet) : Type 0 where
  response : result.0 ≡ leb 16 m.counter
  counter : m.counter ≤ 23 → result.1.counter ≡ m.counter + 1
  continues : m.counter < 23 → result.1.transaction ≡ m.transaction
  closes : m.counter ≡ 23 → result.1.transaction ≡ false

answer-Call : (m : Memory) (p : Packet) → Call m (answer m p)
unfolding answer
answer-Call m p = ground (arith, process_memory_word-keeps m p)

-- The latency of a block, by the first call's flag.
abbrev pub latency : Bool → ℕ
latency direct = if direct then 0 else 16

module _ (packets : ℕ → Packet) (direct : ℕ → Bool) where
  -- The memory after a number of calls, the packets and the flags given call by call.
  abbrev pub after_calls : ℕ → Memory → Memory
  after_calls zero m = m
  after_calls (suc n) m = (bus_transaction_handler (after_calls n m) (packets n) (direct n)).1

  abbrev pub response_of : ℕ → Memory → Bool
  response_of n m = (bus_transaction_handler (after_calls n m) (packets n) (direct n)).0

  module _ (m : Memory) (idle : m.transaction ≡ false)
      (command : (n : ℕ) → is_no_command (packets n).bus_cmd ≡ false) where
    record Running (n : ℕ) : Type 0 where
      open_transaction : (after_calls n m).transaction ≡ true
      count : (after_calls n m).counter ≡ n + (16 - latency (direct 0))

    first_call : Running 1
    unfolding bus_transaction_handler begin_transaction
    first_call = ground (
      arith,
      command 0,
      answer-Call (record m { transaction = true; counter = 16 }) (packets 0),
      answer-Call (record m { transaction = true; counter = 0 }) (packets 0),
    )

    next_call : (n : ℕ) → n + (16 - latency (direct 0)) < 23 → Running n → Running (suc n)
    unfolding bus_transaction_handler begin_transaction
    next_call n h r = ground (arith, command n, answer-Call (after_calls n m) (packets n))

    running : (n : ℕ) → n + (16 - latency (direct 0)) < 23 → Running (suc n)
    running zero h = first_call
    running (suc n) h = next_call (suc n) h (running n (omega arith))

    response_later :
        (n : ℕ)
        → n < latency (direct 0) + 7
        → response_of (suc n) m ≡ leb (latency (direct 0)) (suc n)
    unfolding bus_transaction_handler begin_transaction
    response_later n h = ground (
      arith,
      running n (ground arith),
      command (suc n),
      answer-Call (after_calls (suc n) m) (packets (suc n)),
    )

    response_first : response_of 0 m ≡ leb (latency (direct 0)) 0
    unfolding bus_transaction_handler begin_transaction
    response_first = ground (
      arith,
      command 0,
      answer-Call (record m { transaction = true; counter = 16 }) (packets 0),
      answer-Call (record m { transaction = true; counter = 0 }) (packets 0),
    )

    last_call : (n : ℕ) → n ≡ latency (direct 0) + 7 → (after_calls (suc n) m).transaction ≡ false
    unfolding bus_transaction_handler begin_transaction
    last_call zero h = absurd (omega arith)
    last_call (suc n) h = ground (
      arith,
      running n (ground arith),
      command (suc n),
      answer-Call (after_calls (suc n) m) (packets (suc n)),
    )

    response_at :
        (n : ℕ) → n < latency (direct 0) + 8 → response_of n m ≡ leb (latency (direct 0)) n
    response_at zero h = response_first
    response_at (suc n) h = response_later n (omega arith)

-- From a memory with no transaction open, on packets that all carry a command: the answer is false
-- for 16 calls, or for none if the first call is direct, and then true for the eight words of the
-- block; the eighth closes the transaction.
pub block_timing :
    (packets : ℕ → Packet) (direct : ℕ → Bool) (m : Memory)
    → m.transaction ≡ false
    → ((n : ℕ) → is_no_command (packets n).bus_cmd ≡ false)
    → ((n : ℕ)
        → n < latency (direct 0) + 8
        → response_of packets direct n m ≡ leb (latency (direct 0)) n)
      × ((after_calls packets direct (latency (direct 0) + 8) m).transaction ≡ false)
block_timing packets direct m idle command =
    (response_at packets direct m idle command, closed (latency (direct 0) + 8) refl)
  where
    closed :
        (k : ℕ) → k ≡ latency (direct 0) + 8 → (after_calls packets direct k m).transaction ≡ false
    closed zero e = absurd (omega arith)
    closed (suc k) e = last_call packets direct m idle command k (omega arith)
