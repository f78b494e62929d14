-- ===== src/Coherence/Fetch/Progress.antt =====
-- How a fetch comes on with each `Bus_Iter` of Interface/src/Bus.c.
use multicore_proccessor.Common.{ℕ, suc, ◌+◌, ◌-◌, ◌*◌, ◌<◌, ◌≡◌, ◌≢◌, true, false, List, arith}
use multicore_proccessor.Bus.Packet.{Packet, Command}
use multicore_proccessor.Bus.State.{TransactionState}
use multicore_proccessor.Bus.Iteration.{Platform}
use multicore_proccessor.Memory.{Memory, masked}
use multicore_proccessor.Cache.Address.{index_of, tag_of}
use multicore_proccessor.Cache.State.{Mesi, CacheData, line}
use multicore_proccessor.Cache.Snoop.{store_word}
use multicore_proccessor.Coherence.Fetch.Answers.{
  word_addr, word_addr_lem, fetch_packet, memory_packet,
}

abbrev pub Hardware : Type 0
Hardware = Platform CacheData Memory

-- The core `i` asks with the command for the block of the address `a`; what the caches, the memory
-- and the queue held when the fetch began.
module _ (i : ℕ) (cmd : Command) (a : ℕ) (caches : ℕ → CacheData) (words : ℕ → ℕ)
    (queue : List Packet) where
  -- The requester's cache with the first `count` words of the block.
  pub record Filled (count : ℕ) (c : CacheData) : Type 0 where
    pub id : c.id ≡ i
    pub block : (o : ℕ) → o < count → c.dsram (index_of a * 8 + o) ≡ words (masked (word_addr a o))
    pub other_words :
        (x : ℕ) → ((o : ℕ) → o < 8 → x ≢ index_of a * 8 + o) → c.dsram x ≡ (caches i).dsram x
    pub other_lines : (f : ℕ) → f ≢ index_of a → c.tsram f ≡ (caches i).tsram f
    pub tag : 0 < count → (line c a).tag ≡ tag_of a

  -- The bus, the memory and the other caches.
  pub record Steady (s : Hardware) : Type 0 where
    pub contents : s.memory.words ≡ words
    pub queued : s.bus.queue ≡ queue
    pub others : (j : ℕ) → j ≢ i → s.caches j ≡ caches j

  -- After `n` iterations.
  pub record Fetching (n : ℕ) (s : Hardware) : Type 0 where
    pub progress : s.bus.in_progress ≡ true
    pub operation : s.bus.transaction_state i ≡ TransactionState.operation
    pub packet : s.bus.current_packet ≡ fetch_packet i cmd a
    pub offset : s.bus.address_offset ≡ n - 16
    pub counter : s.memory.counter ≡ n
    pub busy : s.memory.transaction ≡ true
    pub filled : Filled (n - 16) (s.caches i)
    pub steady : Steady s

  -- After the last.
  pub record Fetched (s : Hardware) : Type 0 where
    pub idle : s.bus.in_progress ≡ false
    pub finally : s.bus.transaction_state i ≡ TransactionState.finally
    pub sender : s.bus.current_packet.bus_origid ≡ i
    pub closed : s.memory.transaction ≡ false
    pub filled : Filled 8 (s.caches i)
    pub exclusive : (line (s.caches i) a).mesi ≡ Mesi.exclusive
    pub steady : Steady s

  pub Filled-store :
      (c : CacheData) (o : ℕ)
      → o < 8
      → Filled o c
      → Filled (suc o) (store_word c (memory_packet i cmd a o words))
  unfolding store_word
  Filled-store c o lt h = record {
    id = h.id;
    block = λ x l. ground (arith, word_addr_lem a o, h.block x);
    other_words = λ x n. ground (arith, word_addr_lem a o, h.other_words x n, n o lt);
    other_lines = λ f n. ground (arith, word_addr_lem a o, h.other_lines f n);
    tag = λ _. ground (arith, word_addr_lem a o);
  }
