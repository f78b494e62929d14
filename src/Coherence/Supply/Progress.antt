-- ===== src/Coherence/Supply/Progress.antt =====
-- How the supply of a block comes on with each `Bus_Iter` of Interface/src/Bus.c.
use multicore_proccessor.Common.{
  ℕ, suc, ◌+◌, ◌-◌, ◌*◌, ◌%◌, ◌<◌, ◌≡◌, ◌≢◌, sym, ap, ◌∙◌, Bool, true, false, ◌&&◌, List, arith,
  ◌==◌, ltb, if◌then◌else◌, update, update_ne, update_self,
}
use mathlib.Core.Path.{subst}
use native.Mathlib.Decide.{ℕ_discrete}
use multicore_proccessor.Bus.Packet.{Packet, Command, number_of_cores}
use multicore_proccessor.Bus.State.{TransactionState}
use multicore_proccessor.Memory.{masked}
use multicore_proccessor.Cache.Address.{index_of}
use multicore_proccessor.Cache.State.{Mesi, CacheData, line, holds, set_mesi}
use multicore_proccessor.Cache.Snoop.{store_word}
use multicore_proccessor.Coherence.Fetch.Answers.{word_addr, fetch_packet}
use multicore_proccessor.Coherence.Fetch.Progress.{Hardware, Filled, Filled-store}
use multicore_proccessor.Coherence.Supply.Answers.{owner_packet, given_up}

-- The core `o` owns the block of the address `a`, which no other core holds; the line in its place
-- in the cache of the core `i` is invalid.
pub record Owned (i o a : ℕ) (caches : ℕ → CacheData) : Type 0 where
  pub requester : i < number_of_cores
  pub owner : o < number_of_cores
  pub ne : o ≢ i
  pub ids : (j : ℕ) → (caches j).id ≡ j
  pub held : holds (caches o) a ≡ true
  pub owned : (line (caches o) a).mesi ≡ Mesi.modified
  pub absent : (j : ℕ) → j ≢ o → holds (caches j) a ≡ false
  pub invalid : (line (caches i) a).mesi ≡ Mesi.invalid

if_true : (b : Bool) (x y : ℕ) → b ≡ true → (if b then x else y) ≡ x
if_true b x y h = ground arith

test_lem :
    (x base k : ℕ) → x - x % 8 ≡ base → x % 8 < k → ((x - x % 8 == base) && ltb (x % 8) k) ≡ true
test_lem x base k h lt = ground arith

test_grows :
    (x base k : ℕ)
    → x ≢ base + k
    → ((x - x % 8 == base) && ltb (x % 8) k) ≡ ((x - x % 8 == base) && ltb (x % 8) (suc k))
test_grows x base k ne = ground arith

-- The core `i` asks with the command; what the caches, the memory and the queue held at first.
module _ (i o : ℕ) (cmd : Command) (a : ℕ) (caches : ℕ → CacheData) (words : ℕ → ℕ)
    (queue : List Packet) where
  -- The owner's word.
  abbrev pub owned_word : ℕ → ℕ
  owned_word k = (caches o).dsram (index_of a * 8 + k % 8)

  -- The memory with the first `k` words of the block from the owner.
  abbrev pub supplied : ℕ → ℕ → ℕ
  supplied k x =
      if (x - x % 8 == masked (word_addr a 0)) && ltb (x % 8) k
      then (caches o).dsram (index_of a * 8 + x % 8)
      else words x

  word_place :
      (k : ℕ)
      → k < 8
      → (masked (word_addr a k) ≡ masked (word_addr a 0) + k)
        × (masked (word_addr a k) - masked (word_addr a k) % 8 ≡ masked (word_addr a 0))
        × (masked (word_addr a k) % 8 ≡ k % 8)
  word_place k lt = (omega arith, omega arith, omega arith)

  supplied-in :
      (k x j : ℕ)
      → x - x % 8 ≡ masked (word_addr a 0)
      → x % 8 ≡ j
      → j < k
      → supplied k x ≡ (caches o).dsram (index_of a * 8 + j)
  supplied-in k x j block place lt =
      if_true ((x - x % 8 == masked (word_addr a 0)) && ltb (x % 8) k)
        ((caches o).dsram (index_of a * 8 + x % 8)) (words x)
        (test_lem x (masked (word_addr a 0)) k block (omega (arith, place, lt)))
      ∙ ap (λ (y : ℕ). (caches o).dsram (index_of a * 8 + y)) place

  supplied-grows : (k x : ℕ) → x ≢ masked (word_addr a 0) + k → supplied k x ≡ supplied (suc k) x
  supplied-grows k x ne =
      ap (λ (b : Bool). if b then (caches o).dsram (index_of a * 8 + x % 8) else words x)
        (test_grows x (masked (word_addr a 0)) k ne)

  pub supplied-at : (k : ℕ) → k < 8 → owned_word k ≡ supplied 8 (masked (word_addr a k))
  supplied-at k lt =
      let (_, block, place) = word_place k lt in
      sym (supplied-in 8 (masked (word_addr a k)) (k % 8) block place (omega arith))

  pub supplied-suc :
      (k x : ℕ) (old : ℕ → ℕ)
      → k < 8
      → ((y : ℕ) → old y ≡ supplied k y)
      → update old (masked (word_addr a k)) (owned_word k) x ≡ supplied (suc k) x
  supplied-suc k x old lt h = elim (ℕ_discrete (masked (word_addr a k)) x) [
    | yes same ↦
        let (_, block, place) = word_place k lt in
        subst (λ (y : ℕ). update old (masked (word_addr a k)) (owned_word k) y ≡ supplied (suc k) y)
          same
          (update_self old (masked (word_addr a k)) (owned_word k)
            ∙ sym (supplied-in (suc k) (masked (word_addr a k)) (k % 8) block place (omega arith)))
    | no other ↦
        update_ne old (owned_word k) other
        ∙ h x
        ∙ supplied-grows k x (λ e. other ((word_place k lt).0 ∙ sym e))
  ]

  -- With `k` words handed over.
  pub record Supplying (k : ℕ) (s : Hardware) : Type 0 where
    pub progress : s.bus.in_progress ≡ true
    pub operation : s.bus.transaction_state i ≡ TransactionState.operation
    pub packet : s.bus.current_packet ≡ fetch_packet i cmd a
    pub later : s.bus.is_first_shared ≡ false
    pub offset : s.bus.address_offset ≡ k
    pub busy : s.memory.transaction ≡ (if k == 0 then false else true)
    pub counter : 0 < k → s.memory.counter ≡ 16 + k
    pub filled : Filled i cmd a caches (supplied 8) queue k (s.caches i)
    pub invalid : (line (s.caches i) a).mesi ≡ Mesi.invalid
    pub contents : (x : ℕ) → s.memory.words x ≡ supplied k x
    pub queued : s.bus.queue ≡ queue
    pub others : (j : ℕ) → j ≢ i → s.caches j ≡ caches j

  -- After the last word.
  pub record Supplied (s : Hardware) : Type 0 where
    pub idle : s.bus.in_progress ≡ false
    pub finally : s.bus.transaction_state i ≡ TransactionState.finally
    pub sender : s.bus.current_packet.bus_origid ≡ i
    pub closed : s.memory.transaction ≡ false
    pub filled : Filled i cmd a caches (supplied 8) queue 8 (s.caches i)
    pub shared : (line (s.caches i) a).mesi ≡ Mesi.shared
    pub given : s.caches o ≡ set_mesi (caches o) (word_addr a 7) (given_up cmd)
    pub contents : (x : ℕ) → s.memory.words x ≡ supplied 8 x
    pub queued : s.bus.queue ≡ queue
    pub others : (j : ℕ) → j ≢ i → j ≢ o → s.caches j ≡ caches j

  pub Filled-supply :
      (c : CacheData) (k : ℕ)
      → k < 8
      → Filled i cmd a caches (supplied 8) queue k c
      → Filled i cmd a caches
          (supplied 8)
          queue
          (suc k)
          (store_word c (owner_packet i o cmd a k (owned_word k)))
  unfolding store_word
  Filled-supply c k lt h =
      subst
        (λ (w : ℕ).
          Filled i cmd a caches (supplied 8) queue (suc k)
            (store_word c (owner_packet i o cmd a k w)))
        (sym (supplied-at k lt)) (Filled-store i cmd a caches (supplied 8) queue c k lt h)
