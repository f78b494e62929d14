-- ===== src/Coherence/Supply/Answers.antt =====
-- What one call of each callback does while an owner supplies a block.
use multicore_proccessor.Common.{
  ℕ, suc, ◌+◌, ◌*◌, ◌%◌, ◌<◌, ◌≡◌, ◌≢◌, Bool, true, false, arith, ◌==◌, if◌then◌else◌, update,
}
use multicore_proccessor.Bus.Packet.{Packet, Command}
use multicore_proccessor.Memory.{Memory, masked, bus_transaction_handler}
use multicore_proccessor.Cache.Address.{index_of}
use multicore_proccessor.Cache.State.{Mesi, CacheData, line, holds, set_mesi}
use multicore_proccessor.Cache.Snoop.{
  shared_signal_handle, cache_snooping_handle, cache_response_handle, store_word,
}
use multicore_proccessor.Coherence.Fetch.Answers.{
  IsFetch, read, own, word_addr, word_addr_lem, fetch_packet,
}

-- The request for a word of the block, on the shared wire.
abbrev pub shared_request : ℕ → Command → ℕ → ℕ → Packet
shared_request i cmd a offset = record (fetch_packet i cmd a) {
  bus_addr = word_addr a offset;
  bus_shared = true;
}

-- The packet with the word that the core `o` makes of it.
abbrev pub owner_packet : ℕ → ℕ → Command → ℕ → ℕ → ℕ → Packet
owner_packet i o cmd a offset w = record (shared_request i cmd a offset) {
  bus_origid = o;
  bus_cmd = Command.flush;
  bus_data = w;
}

-- The state in which the owner's line is left.
abbrev pub given_up : Command → Mesi
given_up Command.bus_rd_x = Mesi.invalid
given_up Command.bus_rd = Mesi.shared
given_up Command.flush = Mesi.shared
given_up Command.no_command = Mesi.shared

module _ (i o : ℕ) (cmd : Command) (a : ℕ) (c : CacheData) where
  pub signal-stays : (shared_signal_handle c (fetch_packet i cmd a) true).1 ≡ true
  unfolding shared_signal_handle
  signal-stays = ground arith

  pub signal-owner :
      (modified : Bool)
      → c.id ≡ o
      → o ≢ i
      → holds c a ≡ true
      → (line c a).mesi ≡ Mesi.modified
      → shared_signal_handle c (fetch_packet i cmd a) modified ≡ (true, true)
  unfolding shared_signal_handle
  signal-owner modified id ne held owned = ground (arith, id, held, owned)

  -- A cache that does not hold the block.
  pub snooping-absent :
      (offset w : ℕ)
      → holds c a ≡ false
      → (cache_snooping_handle c (shared_request i cmd a offset) offset
          ≡ (false, c, shared_request i cmd a offset))
        × (cache_snooping_handle c (owner_packet i o cmd a offset w) offset
            ≡ (false, c, owner_packet i o cmd a offset w))
  unfolding cache_snooping_handle
  snooping-absent offset w absent = ground (arith, absent, word_addr_lem a offset)

  pub response-takes :
      (offset w : ℕ)
      → c.id ≡ i
      → offset < 7
      → cache_response_handle c (owner_packet i o cmd a offset w) offset
        ≡ (false, store_word c (owner_packet i o cmd a offset w), suc offset)
  unfolding cache_response_handle
  response-takes offset w id lt = ground (arith, id)

  pub response-ends :
      (w : ℕ)
      → c.id ≡ i
      → let p = owner_packet i o cmd a 7 w in
        cache_response_handle c p 7
        ≡ (true, set_mesi (store_word c p) (word_addr a 7) Mesi.shared, 7)
  unfolding cache_response_handle
  response-ends w id = ground (arith, id)

-- The owner supplies its word, and changes its state with the last.
pub snooping-owner :
    (i o : ℕ) {cmd : Command} (a : ℕ) (c : CacheData) (offset : ℕ)
    → IsFetch cmd
    → c.id ≡ o
    → o ≢ i
    → holds c a ≡ true
    → (line c a).mesi ≡ Mesi.modified
    → cache_snooping_handle c (shared_request i cmd a offset) offset ≡ (
      true,
      if offset == 7 then set_mesi c (word_addr a offset) (given_up cmd) else c,
      owner_packet i o cmd a offset (c.dsram (index_of a * 8 + offset % 8)),
    )
unfolding cache_snooping_handle
snooping-owner i o a c offset read id ne held owned =
    ground (arith, id, held, owned, word_addr_lem a offset)
snooping-owner i o a c offset own id ne held owned =
    ground (arith, id, held, owned, word_addr_lem a offset)

-- Called directly, the memory stores a word in each call, and ends with the eighth.
abbrev pub taken : Memory → ℕ → ℕ → ℕ → Memory
taken m a offset w = record m {
  words = update m.words (masked (word_addr a offset)) w;
  counter = 17 + offset;
  transaction = if offset == 7 then false else true;
}

pub memory-takes :
    (m : Memory) (i o : ℕ) (cmd : Command) (a offset w : ℕ)
    → offset < 8
    → m.transaction ≡ (if offset == 0 then false else true)
    → (0 < offset → m.counter ≡ 16 + offset)
    → bus_transaction_handler m (owner_packet i o cmd a offset w) true
      ≡ (true, taken m a offset w, owner_packet i o cmd a offset w)
unfolding bus_transaction_handler
memory-takes m i o cmd a offset w lt busy count = ground (arith, busy, count)
