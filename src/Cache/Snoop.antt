-- ===== src/Cache/Snoop.antt =====
-- The three callbacks of Core/src/Cache.c that the bus calls, and the four states of its snooping.
use multicore_proccessor.Common.{
  ℕ, ◌+◌, Bool, true, false, not, ◌&&◌, ◌||◌, ◌==◌, if◌then◌else◌, update, u8,
}
use multicore_proccessor.Bus.Packet.{Packet, Command, is_flush}
use multicore_proccessor.Cache.Address.{index_of, tag_of, slot}
use multicore_proccessor.Cache.State.{Mesi, CacheData, line, holds, is_modified, set_mesi}

-- The line's answer on the shared wire, and `*is_modified`, which ignores the line's tag.
unfoldable pub shared_signal_handle : CacheData → Packet → Bool → Bool × Bool
shared_signal_handle c p modified =
    if c.id == p.bus_origid
    then (false, modified)
    else (holds c p.bus_addr, modified || is_modified (line c p.bus_addr).mesi)

-- Each state returns the line's next state, and the packet as it leaves it.
unfoldable pub mesi_snooping_invalid_state : CacheData → Packet → Mesi × Packet
mesi_snooping_invalid_state c p = (Mesi.invalid, p)

unfoldable pub mesi_snooping_shared_state : CacheData → Packet → Mesi × Packet
mesi_snooping_shared_state c p = elim p.bus_cmd [
  | Command.bus_rd_x ↦ (Mesi.invalid, p)
  | _ ↦ (Mesi.shared, p)
]

unfoldable pub mesi_snooping_exclusive_state : CacheData → Packet → Mesi × Packet
mesi_snooping_exclusive_state c p = elim p.bus_cmd [
  | Command.bus_rd ↦ (Mesi.shared, p)
  | Command.bus_rd_x ↦ (Mesi.invalid, p)
  | _ ↦ (Mesi.exclusive, p)
]

-- The owner of a modified line answers with its word.
supply : CacheData → Packet → Packet
supply c p = record p {
  bus_cmd = Command.flush;
  bus_data = c.dsram (slot p.bus_addr);
  bus_origid = c.id;
}

unfoldable pub mesi_snooping_modified_state : CacheData → Packet → Mesi × Packet
unfolding supply
mesi_snooping_modified_state c p = elim p.bus_cmd [
  | Command.bus_rd ↦ (Mesi.shared, supply c p)
  | Command.bus_rd_x ↦ (Mesi.invalid, supply c p)
  | Command.flush ↦ (Mesi.modified, supply c p)
  | Command.no_command ↦ (Mesi.modified, p)
]

-- The table `gSnoopingSM`
unfoldable pub snooping_sm : Mesi → CacheData → Packet → Mesi × Packet
unfolding mesi_snooping_invalid_state mesi_snooping_shared_state mesi_snooping_exclusive_state
    mesi_snooping_modified_state
snooping_sm Mesi.invalid = mesi_snooping_invalid_state
snooping_sm Mesi.shared = mesi_snooping_shared_state
snooping_sm Mesi.exclusive = mesi_snooping_exclusive_state
snooping_sm Mesi.modified = mesi_snooping_modified_state

-- The sender of a flush puts its own word on the bus.
own_word : CacheData → Packet → Packet
own_word c p =
    if c.id == p.bus_original_sender && is_flush p.bus_cmd
    then record p { bus_data = c.dsram (slot p.bus_addr) }
    else p

-- The line takes its next state, a modified one only with the block's last word.
take_state : CacheData → ℕ → ℕ → Mesi × Packet → Bool × CacheData × Packet
take_state c address offset (next, p) = (
  true,
  (if offset == 7 || not (is_modified (line c address).mesi) then set_mesi c address next else c),
  p,
)

-- Whether the cache responded, the cache and the packet after the call.
unfoldable pub cache_snooping_handle : CacheData → Packet → ℕ → Bool × CacheData × Packet
unfolding own_word take_state snooping_sm is_flush
cache_snooping_handle c p offset =
    if c.id == p.bus_original_sender && not (is_flush p.bus_cmd)
    then (false, c, p)
    else if holds c p.bus_addr
    then take_state c p.bus_addr offset (snooping_sm (line c p.bus_addr).mesi c (own_word c p))
    else (false, c, p)

-- The line of a word that arrives takes the word's tag; its state changes with the last word alone.
unfoldable pub store_word : CacheData → Packet → CacheData
store_word c p = record c {
  tsram =
      update c.tsram (index_of p.bus_addr) (record (line c p.bus_addr) { tag = tag_of p.bus_addr });
  dsram = update c.dsram (slot p.bus_addr) p.bus_data;
}

-- Whether the block is complete, the cache, and the offset of the next word (a `uint8_t`).
unfoldable pub cache_response_handle : CacheData → Packet → ℕ → Bool × CacheData × ℕ
unfolding store_word is_flush
cache_response_handle c p offset =
    if c.id == p.bus_original_sender && is_flush p.bus_cmd
    then (if offset == 7
        then (
          true,
          set_mesi (store_word c p) p.bus_addr
              (if p.bus_shared then Mesi.shared else Mesi.exclusive),
          offset,
        )
        else (false, store_word c p, u8 (offset + 1)))
    else (false, c, offset)
