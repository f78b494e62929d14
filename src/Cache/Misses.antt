-- ===== src/Cache/Misses.antt =====
-- What a miss of Core/src/Cache.c asks of the bus, and how hits are counted.
use multicore_proccessor.Common.{
  ℕ, ◌≡◌, ◌≢◌, false, some, List, [], ◌∷◌, ◌++◌, arith, if◌then◌else◌,
}
use mathlib.Core.List.{append-nil, append_assoc}
use multicore_proccessor.Bus.Packet.{Packet, Command, request, invalid_originator}
use multicore_proccessor.Bus.State.{TransactionState}
use multicore_proccessor.Cache.Address.{slot, index_of, address_of}
use multicore_proccessor.Cache.State.{CacheData, Shared, line, holds, is_shared, is_modified}
use multicore_proccessor.Cache.Access.{busy, read_data, write_data}

-- The flush of the block that a miss at an address must evict, if that is modified.
abbrev pub eviction : CacheData → ℕ → List Packet
eviction c a =
    if is_modified (line c a).mesi
    then request c.id Command.flush (address_of (line c a).tag (index_of a) 0) (c.dsram (slot a))
      ∷ []
    else []

-- What a read and a write put on the queue.
abbrev pub read_requests : CacheData → Shared → ℕ → List Packet
read_requests c s a =
    if busy s.bus c.id
    then []
    else if holds c a
    then []
    else eviction c a ++ request c.id Command.bus_rd a 0 ∷ []

abbrev pub write_requests : CacheData → Shared → ℕ → List Packet
write_requests c s a =
    if busy s.bus c.id
    then []
    else if holds c a
    then (if is_shared (line c a).mesi
        then request c.id Command.bus_rd_x a 0
          ∷ request invalid_originator Command.no_command 0 0
          ∷ []
        else [])
    else eviction c a ++ request c.id Command.bus_rd_x a 0 ∷ []

-- A read that misses queues the flush of a modified block in its way before its BusRd, a write before
-- its BusRdX; a write to a shared line queues a BusRdX and a packet of no core; any other access
-- queues nothing. What was queued stays in front, and the core is marked as waiting.
pub access_requests :
    (c : CacheData) (s : Shared) (a w : ℕ)
    → c.id ≢ invalid_originator
    → let r = (read_data c s a).2.bus in
      let v = (write_data c s a w).2.bus in
      (r.queue ≡ s.bus.queue ++ read_requests c s a)
      × (v.queue ≡ s.bus.queue ++ write_requests c s a)
      × (read_requests c s a ≢ [] → r.transaction_state c.id ≡ TransactionState.wait)
      × (write_requests c s a ≢ [] → v.transaction_state c.id ≡ TransactionState.wait)
unfolding read_data write_data
access_requests c s a w h = ground (
  arith,
  append-nil s.bus.queue,
  append_assoc s.bus.queue
      (request c.id Command.flush (address_of (line c a).tag (index_of a) 0) (c.dsram (slot a))
        ∷ [])
      (request c.id Command.bus_rd a 0 ∷ []),
  append_assoc s.bus.queue
      (request c.id Command.flush (address_of (line c a).tag (index_of a) 0) (c.dsram (slot a))
        ∷ [])
      (request c.id Command.bus_rd_x a 0 ∷ []),
  append_assoc s.bus.queue (request c.id Command.bus_rd_x a 0 ∷ [])
      (request invalid_originator Command.no_command 0 0 ∷ []),
)

-- There is one flag for the misses of all cores. After a read of one cache misses, the next read hit
-- of another changes nothing in that cache, its count of hits included, and takes the flag away.
pub read_hit-miscounted :
    (c d : CacheData) (s : Shared) (a b : ℕ) {w : ℕ}
    → c.id ≢ d.id
    → busy s.bus c.id ≡ false
    → holds c a ≡ false
    → let (_, _, missed) = read_data c s a in
      (read_data d missed b).0 ≡ some w
      → ((read_data d missed b).1 ≡ d) × ((read_data d missed b).2.read_miss_occurred ≡ false)
unfolding read_data
read_hit-miscounted c d s a b h k m e = ground arith
