-- ===== src/Cache/Access.antt =====
-- `Cache_ReadData`, `Cache_WriteData` and `dirty_block_handling` of Core/src/Cache.c.
use multicore_proccessor.Common.{
  ℕ, ◌+◌, Bool, true, false, ◌||◌, Option, none, some, if◌then◌else◌, update, u32,
}
use multicore_proccessor.Bus.Packet.{Command, request, invalid_originator}
use multicore_proccessor.Bus.State.{Bus, add_transaction, in_transaction, wait_for_transaction}
use multicore_proccessor.Cache.Address.{index_of, slot, address_of}
use multicore_proccessor.Cache.State.{
  Mesi, CacheData, Shared, line, holds, is_shared, is_modified, set_mesi,
}

-- `Bus_InTransaction(id) || Bus_WaitForTransaction(id)`
unfoldable pub busy : Bus → ℕ → Bool
unfolding in_transaction wait_for_transaction
busy b id = in_transaction b id || wait_for_transaction b id

abbrev count : ℕ → ℕ
count n = u32 (n + 1)

count_read_hit : CacheData → CacheData
count_read_hit c = record c {
  statistics = record c.statistics { read_hits = count c.statistics.read_hits };
}

count_write_hit : CacheData → CacheData
count_write_hit c = record c {
  statistics = record c.statistics { write_hits = count c.statistics.write_hits };
}

count_read_miss : CacheData → CacheData
count_read_miss c = record c {
  statistics = record c.statistics { read_misses = count c.statistics.read_misses };
}

count_write_miss : CacheData → CacheData
count_write_miss c = record c {
  statistics = record c.statistics { write_misses = count c.statistics.write_misses };
}

-- A modified block in the way is queued for a flush. The packet's word is the one at the offset of
-- the address that missed, though its address is that of the block's first word.
unfoldable pub dirty_block_handling : CacheData → ℕ → Bus → Bus
unfolding add_transaction
dirty_block_handling c address b =
    if is_modified (line c address).mesi
    then add_transaction b (
        request c.id Command.flush (address_of (line c address).tag (index_of address) 0)
          (c.dsram (slot address)))
    else b

-- A miss of either kind: what is in the way is queued, then the request.
unfoldable pub miss : CacheData → Bus → ℕ → Command → Bus
unfolding dirty_block_handling add_transaction
miss c b address cmd =
    add_transaction (dirty_block_handling c address b) (request c.id cmd address 0)

-- The word that is read, or `none` where the C function returns false; the cache and what is shared
-- after the call.
unfoldable pub read_data : CacheData → Shared → ℕ → Option ℕ × CacheData × Shared
unfolding busy miss count_read_hit count_read_miss
read_data c s address =
    if busy s.bus c.id
    then (none, c, s)
    else if holds c address
    then (
      some (c.dsram (slot address)),
      (if s.read_miss_occurred then c else count_read_hit c),
      record s { read_miss_occurred = false },
    )
    else (
      none,
      count_read_miss c,
      record s { read_miss_occurred = true; bus = miss c s.bus address Command.bus_rd },
    )

-- A write to a line that this cache owns.
write_hit : CacheData → ℕ → ℕ → CacheData
write_hit c address word =
    set_mesi (record c { dsram = update c.dsram (slot address) word }) address Mesi.modified

-- The request for ownership of a shared line, and the packet of no one that follows it.
unfoldable pub upgrade : Bus → ℕ → ℕ → Bus
unfolding add_transaction
upgrade b id address =
    add_transaction (add_transaction b (request id Command.bus_rd_x address 0))
      (request invalid_originator Command.no_command 0 0)

-- Whether the word was written, the cache and what is shared after the call.
unfoldable pub write_data : CacheData → Shared → ℕ → ℕ → Bool × CacheData × Shared
unfolding busy miss upgrade write_hit count_write_hit count_write_miss
write_data c s address word =
    if busy s.bus c.id
    then (false, c, s)
    else if holds c address
    then (if is_shared (line c address).mesi
        then (
          false,
          count_write_miss c,
          record s { write_miss_occurred = true; bus = upgrade s.bus c.id address },
        )
        else (
          true,
          write_hit (if s.write_miss_occurred then c else count_write_hit c) address word,
          record s { write_miss_occurred = false },
        ))
    else (
      false,
      count_write_miss c,
      record s { write_miss_occurred = true; bus = miss c s.bus address Command.bus_rd_x },
    )
