-- ===== src/Tests/Cache.antt =====
-- Runs of, and witnesses about, Core/src/Cache.c.
use multicore_proccessor.Common.{
  ℕ, ◌+◌, ◌≡◌, ◌≢◌, ◌↔◌, ◌⊎◌, ◌++◌, inr, refl, true, false, none, some, [], ◌∷◌, ◌==◌,
  if◌then◌else◌, arith,
}
use multicore_proccessor.Bus.Packet.{Packet, Command, request}
use multicore_proccessor.Bus.State.{
  TransactionState, add_transaction, in_transaction, wait_for_transaction,
}
use multicore_proccessor.Bus.State
use multicore_proccessor.Memory.{init as memory_init}
use multicore_proccessor.Cache.Address.{slot, index_of}
use multicore_proccessor.Cache.State.{Mesi, CacheData, Shared, line, holds}
use multicore_proccessor.Cache.Access.{busy, read_data, write_data}
use multicore_proccessor.Cache.Snoop.{cache_snooping_handle}
use multicore_proccessor.Cache.Flush.{flush_to_memory, flush_to_memory-words}
use multicore_proccessor.Cache.ReadWrite.{
  read_data-outcome, write_data-ownership, read_data-write_data,
}
use multicore_proccessor.Cache.Misses.{read_requests, write_requests, access_requests}
use multicore_proccessor.Cache.Protocol.{
  modified_own, at_offset, answered, cache_snooping_handle-Snoops,
  cache_snooping_handle-overrides_owner,
}
use multicore_proccessor.Coherence.Snooping.{after_pass, check_cache_snooping-Yields}
use multicore_proccessor.Coherence.Latency.{check_shared_line-skips_latency}
use multicore_proccessor.Processor.{callbacks}
use multicore_proccessor.Bus.Iteration.{check_shared_line}
use multicore_proccessor.Bus.Packet.{number_of_cores}
use multicore_proccessor.Memory.{bus_transaction_handler}

-- Every line has the tag 0 and the given state; the word at slot `i` is `base + i`.
abbrev cache_of : ℕ → Mesi → ℕ → CacheData
cache_of id state base = record {
  id = id;
  dsram = λ i. base + i;
  tsram = λ _. record { tag = 0; mesi = state };
  statistics = record { read_hits = 5; write_hits = 0; read_misses = 0; write_misses = 0 };
}

abbrev quiet : Shared
quiet = record { bus = State.initial; read_miss_occurred = false; write_miss_occurred = false }

abbrev owner : CacheData
owner = cache_of 0 Mesi.modified 100

abbrev exclusive_cache : CacheData
exclusive_cache = cache_of 1 Mesi.exclusive 200

abbrev empty_cache : CacheData
empty_cache = cache_of 2 Mesi.invalid 300

-- Core 1 asks for the word 12 for itself.
abbrev ownership : Packet
ownership = record (request 1 Command.bus_rd_x 12 0) { bus_original_sender = 1 }

read_data-outcome_example :
    ((read_data owner quiet 9).0
      ≡ (if busy quiet.bus 0 then none else if holds owner 9 then some 109 else none))
    × ((read_data owner quiet 9).1.dsram ≡ owner.dsram)
    × ((read_data owner quiet 9).1.tsram ≡ owner.tsram)
    × ((read_data owner quiet 9).1.id ≡ 0)
read_data-outcome_example = read_data-outcome owner quiet 9

write_data-ownership_example :
    let (written, c', s') = write_data exclusive_cache quiet 9 55 in
    ((written ≡ true) ↔ (
      (busy quiet.bus 1 ≡ false)
      × (holds exclusive_cache 9 ≡ true)
      × ((Mesi.exclusive ≡ Mesi.exclusive) ⊎ (Mesi.exclusive ≡ Mesi.modified))))
    × (written ≡ true → ((line c' 9).mesi ≡ Mesi.modified) × (s'.bus ≡ quiet.bus))
    × (written ≡ false → (c'.dsram ≡ exclusive_cache.dsram) × (c'.tsram ≡ exclusive_cache.tsram))
write_data-ownership_example = write_data-ownership exclusive_cache quiet 9 55

write_runs : (write_data exclusive_cache quiet 9 55).0 ≡ true
unfolding write_data
write_runs = refl

read_data-write_data_example :
    let (_, c', s') = write_data exclusive_cache quiet 9 55 in
    ((read_data c' s' 9).0 ≡ some 55)
    × (slot 10 ≢ slot 9 → (read_data c' s' 10).0 ≡ (read_data exclusive_cache quiet 10).0)
read_data-write_data_example = read_data-write_data exclusive_cache quiet 9 55 10 write_runs

access_requests_example :
    let r = (read_data owner quiet 520).2.bus in
    let v = (write_data owner quiet 520 1).2.bus in
    (r.queue ≡ [] ++ read_requests owner quiet 520)
    × (v.queue ≡ [] ++ write_requests owner quiet 520)
    × (read_requests owner quiet 520 ≢ [] → r.transaction_state 0 ≡ TransactionState.wait)
    × (write_requests owner quiet 520 ≢ [] → v.transaction_state 0 ≡ TransactionState.wait)
access_requests_example = access_requests owner quiet 520 1 (omega arith)

-- A miss at 520 flushes the block of address 8 first.
read_requests_runs :
    read_requests owner quiet 520
    ≡ request 0 Command.flush 8 108 ∷ request 0 Command.bus_rd 520 0 ∷ []
unfolding in_transaction wait_for_transaction busy
read_requests_runs = refl

cache_snooping_handle-Snoops_example :
    let (responded, c', p') = cache_snooping_handle owner ownership 7 in
    (responded ≡ true)
    × ((line c' 12).mesi ≡ at_offset Mesi.modified Mesi.invalid 7)
    × ((line c' 12).tag ≡ 0)
    × (p' ≡ answered owner ownership true)
    × (c'.dsram ≡ owner.dsram)
    × ((i : ℕ) → i ≢ index_of 12 → c'.tsram i ≡ owner.tsram i)
cache_snooping_handle-Snoops_example =
    cache_snooping_handle-Snoops owner ownership 7 modified_own refl (omega arith) refl refl

cache_snooping_handle-overrides_owner_example :
    let (_, _, supplied) = cache_snooping_handle owner ownership 3 in
    let (_, _, passed) = cache_snooping_handle exclusive_cache supplied 3 in
    (supplied.bus_data ≡ 112) × (passed.bus_data ≡ 212)
cache_snooping_handle-overrides_owner_example =
    cache_snooping_handle-overrides_owner owner exclusive_cache ownership 3 refl (omega arith)
      (ground arith) refl refl refl

memory_idle : (memory_init []).transaction ≡ false
unfolding memory_init
memory_idle = refl

check_shared_line-skips_latency_example :
    let (shared, modified) =
      check_shared_line callbacks number_of_cores 0
        (λ j. cache_of j Mesi.modified 100)
        (record ownership { bus_addr = 520 })
        false
        false in
    (shared ≡ false)
    × (modified ≡ true)
    × ((bus_transaction_handler (memory_init []) (record ownership { bus_addr = 520 }) modified).0
        ≡ true)
check_shared_line-skips_latency_example =
    check_shared_line-skips_latency (λ j. cache_of j Mesi.modified 100)
      (record ownership { bus_addr = 520 }) (memory_init []) 0 (omega arith) (omega arith) refl
      (λ j. refl) memory_idle refl

flush_to_memory-words_example : (flush_to_memory owner (memory_init [])).words 13 ≡ 113
flush_to_memory-words_example =
    flush_to_memory-words owner (memory_init []) 13 (λ i. omega arith) (omega arith)

-- Core 0 owns all its lines, and the other cores hold nothing.
abbrev one_owner : ℕ → CacheData
one_owner j = cache_of j (if j == 0 then Mesi.modified else Mesi.invalid) (100 + j)

check_cache_snooping-Yields_example :
    holds (after_pass 4 0 one_owner ownership 7 false 0) 12 ≡ false
check_cache_snooping-Yields_example =
    check_cache_snooping-Yields one_owner ownership false 0 (λ j. refl) (λ i j ne a b. ground arith)
      (inr refl) (omega arith) (omega arith)
