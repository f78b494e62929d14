-- ===== src/Bus/State.antt =====
-- The variables of Interface/src/Bus.c, its queue, and the functions that the caches call.
-- The queue of linked nodes is the list of its packets, the oldest first, as `parent` leads from the
-- tail to the head. An allocation is taken to succeed.
use multicore_proccessor.Common.{
  ℕ, Bool, true, false, Option, none, some, List, [], ◌∷◌, ◌++◌, ◌==◌, if◌then◌else◌, update,
}
use multicore_proccessor.Bus.Packet.{Packet, Command, Originator, invalid_originator}

-- `transaction_state_e`
pub data TransactionState : Type 0 where
  idle wait operation finally : TransactionState

-- A line of the bus trace, as `print_bus_status` writes it.
pub record TraceLine : Type 0 where
  pub cycle : ℕ
  pub packet : Packet

-- `gBusInProgress`, `gBusTransactionState`, `gCurrentPacket`, `gAddressOffset`, `gIterCounter`, the
-- queue, the static `is_first_shared` of `Bus_Iter`, and the trace, its last line first.
pub record Bus : Type 0 where
  pub in_progress : Bool
  pub transaction_state : ℕ → TransactionState
  pub current_packet : Packet
  pub address_offset : ℕ
  pub iter_counter : ℕ
  pub queue : List Packet
  pub is_first_shared : Bool
  pub trace : List TraceLine

-- The bus when the program starts: static storage is zero.
abbrev pub initial : Bus
initial = record {
  in_progress = false;
  transaction_state = λ _. TransactionState.idle;
  current_packet = record {
    bus_original_sender = 0;
    bus_origid = 0;
    bus_cmd = Command.no_command;
    bus_addr = 0;
    bus_data = 0;
    bus_shared = false;
  };
  address_offset = 0;
  iter_counter = 0;
  queue = [];
  is_first_shared = true;
  trace = [];
}

unfoldable pub fifo_is_empty : List Packet → Bool
fifo_is_empty [] = true
fifo_is_empty (_ ∷ _) = false

unfoldable pub fifo_enqueue : List Packet → Packet → List Packet
fifo_enqueue q item = q ++ item ∷ []

-- The packet and what is left; `none` where the C function returns false.
unfoldable pub fifo_dequeue : List Packet → Option (Packet × List Packet)
fifo_dequeue [] = none
fifo_dequeue (item ∷ q) = some (item, q)

-- An invalid originator is queued, and marks no core as waiting.
unfoldable pub add_transaction : Bus → Packet → Bus
unfolding fifo_enqueue
add_transaction b packet =
    let queued = record b { queue = fifo_enqueue b.queue packet } in
    if packet.bus_origid == invalid_originator then queued else record queued {
      transaction_state = update b.transaction_state packet.bus_origid TransactionState.wait;
    }

abbrev is_idle : TransactionState → Bool
is_idle TransactionState.idle = true
is_idle TransactionState.wait = false
is_idle TransactionState.operation = false
is_idle TransactionState.finally = false

abbrev is_wait : TransactionState → Bool
is_wait TransactionState.wait = true
is_wait TransactionState.idle = false
is_wait TransactionState.operation = false
is_wait TransactionState.finally = false

unfoldable pub in_transaction : Bus → Originator → Bool
in_transaction b originator = if is_idle (b.transaction_state originator) then false else true

unfoldable pub wait_for_transaction : Bus → Originator → Bool
wait_for_transaction b originator = is_wait (b.transaction_state originator)
