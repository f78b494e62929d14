-- ===== src/Coherence/Fetch/Answers.antt =====
-- What one call of each callback does in the course of a fetch.
use multicore_proccessor.Common.{
  ℕ, suc, ◌+◌, ◌-◌, ◌*◌, ◌%◌, ◌≤◌, ◌<◌, ◌≡◌, ◌≢◌, true, false, arith, ◌==◌, if◌then◌else◌,
}
use multicore_proccessor.Bus.Packet.{Packet, Command, request, main_memory}
use multicore_proccessor.Memory.{Memory, masked, bus_transaction_handler}
use multicore_proccessor.Cache.Address.{index_of, tag_of, slot}
use multicore_proccessor.Cache.State.{Mesi, CacheData, line, holds, is_modified, set_mesi}
use multicore_proccessor.Cache.Snoop.{
  shared_signal_handle, cache_snooping_handle, cache_response_handle, store_word,
}

-- The commands that bring a block.
pub data IsFetch : Command → Type 0 where
  read : IsFetch Command.bus_rd
  own : IsFetch Command.bus_rd_x

-- The address of a word of the block.
abbrev pub word_addr : ℕ → ℕ → ℕ
word_addr a offset = a - a % 8 + offset % 8

pub word_addr_lem :
    (a offset : ℕ)
    → (index_of (word_addr a offset) ≡ index_of a)
      × (tag_of (word_addr a offset) ≡ tag_of a)
      × (slot (word_addr a offset) ≡ index_of a * 8 + offset % 8)
word_addr_lem a offset = omega arith

-- The packet of the fetch, and the packet with a word of the block that the memory makes of it.
abbrev pub fetch_packet : ℕ → Command → ℕ → Packet
fetch_packet i cmd a = record (request i cmd a 0) { bus_original_sender = i }

abbrev pub memory_packet : ℕ → Command → ℕ → ℕ → (ℕ → ℕ) → Packet
memory_packet i cmd a offset words = record (fetch_packet i cmd a) {
  bus_addr = word_addr a offset;
  bus_origid = main_memory;
  bus_cmd = Command.flush;
  bus_data = words (masked (word_addr a offset));
}

pub memory-starts :
    (m : Memory) (p : Packet) {cmd : Command}
    → IsFetch cmd
    → p.bus_cmd ≡ cmd
    → m.transaction ≡ false
    → bus_transaction_handler m p false ≡ (false, record m { transaction = true; counter = 1 }, p)
unfolding bus_transaction_handler
memory-starts m p read h idle = ground arith
memory-starts m p own h idle = ground arith

pub memory-waits :
    (m : Memory) (p : Packet) {cmd : Command}
    → IsFetch cmd
    → p.bus_cmd ≡ cmd
    → m.transaction ≡ true
    → m.counter < 16
    → bus_transaction_handler m p false ≡ (false, record m { counter = suc m.counter }, p)
unfolding bus_transaction_handler
memory-waits m p read h busy lt = ground arith
memory-waits m p own h busy lt = ground arith

pub memory-answers :
    (m : Memory) (p : Packet) {cmd : Command}
    → IsFetch cmd
    → p.bus_cmd ≡ cmd
    → m.transaction ≡ true
    → 16 ≤ m.counter
    → m.counter ≤ 23
    → bus_transaction_handler m p false ≡ (
      true,
      record m { counter = suc m.counter; transaction = if m.counter == 23 then false else true },
      record p {
        bus_origid = main_memory;
        bus_cmd = Command.flush;
        bus_data = m.words (masked p.bus_addr);
      },
    )
unfolding bus_transaction_handler
memory-answers m p read h busy ge le = ground arith
memory-answers m p own h busy ge le = ground arith

-- A cache that is not involved, by its number.
pub record Aside (i a j : ℕ) (c : CacheData) : Type 0 where
  pub id : c.id ≡ j
  pub absent : j ≢ i → holds c a ≡ false
  pub clean : j ≢ i → is_modified (line c a).mesi ≡ false

pub Aside-signal :
    {i a j : ℕ} (c : CacheData) (cmd : Command)
    → Aside i a j c
    → shared_signal_handle c (fetch_packet i cmd a) false ≡ (false, false)
unfolding shared_signal_handle
Aside-signal c cmd h = ground (arith, h.id, h.absent, h.clean)

-- Neither the caches that are not involved nor the one that asked answer a word of the request.
pub Aside-snooping :
    {i a j : ℕ} (c : CacheData) (offset : ℕ) {cmd : Command}
    → IsFetch cmd
    → Aside i a j c
    → let p = record (fetch_packet i cmd a) { bus_addr = word_addr a offset } in
      cache_snooping_handle c p offset ≡ (false, c, p)
unfolding cache_snooping_handle
Aside-snooping {i} {a} {j} c offset read h = ground (arith, h.id, h.absent, word_addr_lem a offset)
Aside-snooping {i} {a} {j} c offset own h = ground (arith, h.id, h.absent, word_addr_lem a offset)

-- The cache that asked stores a word, and is done with the eighth.
pub response-continues :
    (c : CacheData) {i : ℕ} (cmd : Command) (a offset : ℕ) (words : ℕ → ℕ)
    → c.id ≡ i
    → offset < 7
    → let p = memory_packet i cmd a offset words in
      cache_response_handle c p offset ≡ (false, store_word c p, suc offset)
unfolding cache_response_handle
response-continues c cmd a offset words h lt = ground arith

pub response-completes :
    (c : CacheData) {i : ℕ} (cmd : Command) (a : ℕ) (words : ℕ → ℕ)
    → c.id ≡ i
    → let p = memory_packet i cmd a 7 words in
      cache_response_handle c p 7
      ≡ (true, set_mesi (store_word c p) (word_addr a 7) Mesi.exclusive, 7)
unfolding cache_response_handle
response-completes c cmd a words h = ground arith
