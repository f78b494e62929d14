-- ===== src/Cache/Protocol.antt =====
-- The snooping side of the MESI protocol in Core/src/Cache.c, against the table of transitions in
-- docs/Project_Documentation.md.
use multicore_proccessor.Common.{ℕ, ◌≡◌, ◌≢◌, ◌⊎◌, Bool, true, false, arith, ◌==◌, if◌then◌else◌}
use multicore_proccessor.Bus.Packet.{Packet, Command}
use multicore_proccessor.Cache.Address.{slot, index_of}
use multicore_proccessor.Cache.State.{Mesi, CacheData, line, holds}
use multicore_proccessor.Cache.Snoop.{cache_snooping_handle}

-- A transition of a line on another core's request, and whether the line's owner supplies the block.
pub data Snoops : Mesi → Command → Mesi → Bool → Type 0 where
  modified_read : Snoops Mesi.modified Command.bus_rd Mesi.shared true
  modified_own : Snoops Mesi.modified Command.bus_rd_x Mesi.invalid true
  exclusive_read : Snoops Mesi.exclusive Command.bus_rd Mesi.shared false
  exclusive_own : Snoops Mesi.exclusive Command.bus_rd_x Mesi.invalid false
  shared_read : Snoops Mesi.shared Command.bus_rd Mesi.shared false
  shared_own : Snoops Mesi.shared Command.bus_rd_x Mesi.invalid false

-- What the packet becomes: the owner's flush of its word, or the request as it was.
abbrev pub answered : CacheData → Packet → Bool → Packet
answered c p supplies =
    if supplies
    then record p {
      bus_cmd = Command.flush;
      bus_data = c.dsram (slot p.bus_addr);
      bus_origid = c.id;
    }
    else p

-- A line's state after the word at an offset: a modified line waits for the last word of the block.
abbrev pub at_offset : Mesi → Mesi → ℕ → Mesi
at_offset Mesi.modified next offset = if offset == 7 then next else Mesi.modified
at_offset Mesi.invalid next offset = next
at_offset Mesi.shared next offset = next
at_offset Mesi.exclusive next offset = next

-- A cache that holds the address of another core's request follows the protocol's transition for its
-- state and the command: the line takes the next state, from modified only with the eighth word; the
-- packet becomes the owner's word if the line is modified and stays the request if not; the cache's
-- words and its other lines stay as they are.
pub cache_snooping_handle-Snoops :
    (c : CacheData) (p : Packet) (offset : ℕ) {state next : Mesi} {cmd : Command} {supplies : Bool}
    → Snoops state cmd next supplies
    → p.bus_cmd ≡ cmd
    → c.id ≢ p.bus_original_sender
    → holds c p.bus_addr ≡ true
    → (line c p.bus_addr).mesi ≡ state
    → let (responded, c', p') = cache_snooping_handle c p offset in
      (responded ≡ true)
      × ((line c' p.bus_addr).mesi ≡ at_offset state next offset)
      × ((line c' p.bus_addr).tag ≡ (line c p.bus_addr).tag)
      × (p' ≡ answered c p supplies)
      × (c'.dsram ≡ c.dsram)
      × ((i : ℕ) → i ≢ index_of p.bus_addr → c'.tsram i ≡ c.tsram i)
unfolding cache_snooping_handle
cache_snooping_handle-Snoops c p offset modified_read cmd ne h e = ground arith
cache_snooping_handle-Snoops c p offset modified_own cmd ne h e = ground arith
cache_snooping_handle-Snoops c p offset exclusive_read cmd ne h e = ground arith
cache_snooping_handle-Snoops c p offset exclusive_own cmd ne h e = ground arith
cache_snooping_handle-Snoops c p offset shared_read cmd ne h e = ground arith
cache_snooping_handle-Snoops c p offset shared_own cmd ne h e = ground arith

-- A cache is left as it is, and leaves the packet as it is, if it does not hold the packet's address,
-- or if it is the sender of a request and no other cache has answered that yet.
pub cache_snooping_handle-ignores :
    (c : CacheData) (p : Packet) (offset : ℕ)
    → (holds c p.bus_addr ≡ false) ⊎ ((c.id ≡ p.bus_original_sender) × (p.bus_cmd ≢ Command.flush))
    → cache_snooping_handle c p offset ≡ (false, c, p)
unfolding cache_snooping_handle
cache_snooping_handle-ignores c p offset h = ground arith

-- The sender of a request whose line already carries the tag of the block that is being fetched
-- puts its own word on the bus in place of the one that the owner supplied: any packet that an owner
-- has turned into a flush carries the sender's old word after it, at every offset.
pub cache_snooping_handle-overrides_owner :
    (owner sender : CacheData) (p : Packet) (offset : ℕ)
    → sender.id ≡ p.bus_original_sender
    → owner.id ≢ p.bus_original_sender
    → p.bus_cmd ≢ Command.no_command
    → holds owner p.bus_addr ≡ true
    → (line owner p.bus_addr).mesi ≡ Mesi.modified
    → holds sender p.bus_addr ≡ true
    → let (_, _, supplied) = cache_snooping_handle owner p offset in
      let (_, _, passed) = cache_snooping_handle sender supplied offset in
      (supplied.bus_data ≡ owner.dsram (slot p.bus_addr))
      × (passed.bus_data ≡ sender.dsram (slot p.bus_addr))
unfolding cache_snooping_handle
cache_snooping_handle-overrides_owner owner sender p offset es eo ec ho mo hs = ground arith
