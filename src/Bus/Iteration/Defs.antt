-- ===== src/Bus/Iteration/Defs.antt =====
-- The callbacks, what `Bus_Iter` works on, and its parts in order.
use multicore_proccessor.Common.{
  ℕ, zero, suc, ◌+◌, ◌-◌, ◌%◌, Bool, true, false, not, ◌&&◌, ◌||◌, Option, none, some, List, ◌∷◌,
  ltb, ◌==◌, if◌then◌else◌, update, u32,
}
use multicore_proccessor.Bus.Packet.{Packet, invalid_originator, number_of_cores}
use multicore_proccessor.Bus.State.{Bus, TransactionState, fifo_is_empty, fifo_dequeue}

-- `shared_signal_callback`, `cache_snooping_callback`, `cache_response_callback` and
-- `memory_callback_t`, over the caches and the memory that they are called with.
pub record Callbacks (C M : Type 0) : Type 0 where
  pub signal : C → Packet → Bool → Bool × Bool
  pub snooping : C → Packet → ℕ → Bool × C × Packet
  pub response : C → Packet → ℕ → Bool × C × ℕ
  pub memory : M → Packet → Bool → Bool × M × Packet

-- The bus, the caches that `gCacheInterface` leads to, and the memory.
pub record Platform (C M : Type 0) : Type 0 where
  pub bus : Bus
  pub caches : ℕ → C
  pub memory : M

is_finally : TransactionState → Bool
is_finally TransactionState.finally = true
is_finally TransactionState.idle = false
is_finally TransactionState.wait = false
is_finally TransactionState.operation = false

-- The count of iterations, and the end of a transaction that was completed in the one before.
unfoldable pub release : Bus → Bus
unfolding is_finally
release b =
    let counted = record b { iter_counter = u32 (b.iter_counter + 1) } in
    let origid = b.current_packet.bus_origid in
    if ltb origid number_of_cores && is_finally (b.transaction_state origid)
    then record counted {
      transaction_state = update b.transaction_state origid TransactionState.idle;
    }
    else counted

-- `print_bus_status`
unfoldable pub print_bus_status : Bus → Packet → Bus
print_bus_status b p = record b { trace = record { cycle = b.iter_counter; packet = p } ∷ b.trace }

-- A packet taken from the queue becomes the current one.
unfoldable pub start : Bus → Packet → Bus
unfolding print_bus_status
start b item =
    let current = record item { bus_original_sender = item.bus_origid } in
    print_bus_status
      (record b {
        current_packet = current;
        in_progress = true;
        transaction_state = update b.transaction_state item.bus_origid TransactionState.operation;
        address_offset = 0;
      })
      current

-- The copy of the current packet, with the offset of the word in turn in its address.
unfoldable pub word_packet : Bus → Bool → Packet
word_packet b shared =
    let current = b.current_packet in
    record current {
      bus_addr = current.bus_addr - current.bus_addr % 8 + b.address_offset % 8;
      bus_shared = shared;
    }

-- The end of a transaction whose block is complete.
unfoldable pub complete : Bool → Bus → Bus
complete finished b =
    if finished
    then record b {
      transaction_state =
          update b.transaction_state b.current_packet.bus_origid TransactionState.finally;
      in_progress = false;
    }
    else b

module _ {C M : Type 0} (k : Callbacks C M) where
  -- The loop over the cores `i`, `i + 1`, … of which `n` are left; the shared wire and `is_modified`.
  unfoldable pub check_shared_line : ℕ → ℕ → (ℕ → C) → Packet → Bool → Bool → Bool × Bool
  check_shared_line zero i caches p shared modified = (shared, modified)
  check_shared_line (suc n) i caches p shared modified =
      let (s, m) = k.signal (caches i) p modified in
      check_shared_line n (i + 1) caches p (shared || s) m

  -- The same loop for snooping: a cache sees the packet as those before it left it.
  unfoldable pub check_cache_snooping :
      ℕ → ℕ → (ℕ → C) → Packet → ℕ → Bool → Bool × (ℕ → C) × Packet
  check_cache_snooping zero i caches p offset responded = (responded, caches, p)
  check_cache_snooping (suc n) i caches p offset responded =
      let (r, c, q) = k.snooping (caches i) p offset in
      check_cache_snooping n (i + 1) (update caches i c) q offset (responded || r)

  -- A word that the memory let through goes to the cache that asked for it.
  unfoldable pub deliver : Platform C M → Packet → Platform C M
  unfolding complete print_bus_status
  deliver s p =
      let origid = s.bus.current_packet.bus_origid in
      let (finished, c, offset) = k.response (s.caches origid) p s.bus.address_offset in
      record s {
        caches = update s.caches origid c;
        bus = complete finished (record (print_bus_status s.bus p) { address_offset = offset });
      }

  unfoldable pub respond : Platform C M → Bool × M × Packet → Platform C M
  unfolding deliver
  respond s (response, m, p) =
      let seen = record s { memory = m } in if response then deliver seen p else seen

  unfoldable pub exchange : Platform C M → Bool → Bool × (ℕ → C) × Packet → Platform C M
  unfolding respond
  exchange s modified (_, caches, p) =
      respond (record s { caches = caches }) (k.memory s.memory p modified)

  -- One iteration of the current transaction. The first one that finds a modified line only waits.
  unfoldable pub transfer_word : Platform C M → Bool × Bool → Platform C M
  unfolding exchange check_cache_snooping word_packet
  transfer_word s (shared, modified) =
      if modified && s.bus.is_first_shared
      then record s { bus = record s.bus { is_first_shared = false } }
      else exchange s modified (
          check_cache_snooping number_of_cores 0 s.caches (word_packet s.bus shared)
            s.bus.address_offset false)

  unfoldable pub transfer : Platform C M → Platform C M
  unfolding transfer_word check_shared_line
  transfer s =
      transfer_word s
        (check_shared_line number_of_cores 0 s.caches s.bus.current_packet false false)

  -- With no transaction under way: the next packet. One of no core is dropped.
  unfoldable pub take_packet : Platform C M → Option (Packet × List Packet) → Platform C M
  unfolding transfer start
  take_packet s none = s
  take_packet s (some (item, rest)) =
      let dequeued = record s.bus { queue = rest } in
      if item.bus_origid == invalid_originator
      then record s { bus = record dequeued { current_packet = item } }
      else transfer (record s { bus = start dequeued item })

  unfoldable pub begin : Platform C M → Platform C M
  unfolding take_packet fifo_dequeue
  begin s =
      let b = record s.bus { is_first_shared = true } in
      take_packet (record s { bus = b }) (fifo_dequeue b.queue)

  unfoldable pub idle : Platform C M → Platform C M
  idle s =
      let none_current = record s.bus.current_packet { bus_origid = invalid_originator } in
      record s { bus = record s.bus { current_packet = none_current } }

  -- What an iteration does after its count.
  unfoldable pub proceed : Platform C M → Platform C M
  unfolding idle begin transfer fifo_is_empty
  proceed s =
      if fifo_is_empty s.bus.queue && not s.bus.in_progress
      then idle s
      else (if s.bus.in_progress then transfer s else begin s)

  unfoldable pub iter : Platform C M → Platform C M
  unfolding release proceed
  iter s = proceed (record s { bus = release s.bus })

-- Whether an iteration calls the caches back: a transaction is under way, or one of a core is next.
unfoldable pub calls_back : Bus → Bool
unfolding fifo_dequeue
calls_back b = b.in_progress || (elim (fifo_dequeue b.queue) [
  | none ↦ false
  | some (item, _) ↦ not (item.bus_origid == invalid_originator)
])
