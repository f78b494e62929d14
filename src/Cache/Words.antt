-- ===== src/Cache/Words.antt =====
-- The width of the words in a cache of Core/src/Cache.c, and of those that it hands over.
use multicore_proccessor.Common.{
  ℕ, ◌≡◌, sym, ◌⊎◌, inl, inr, Option, none, some, arith, IsWord, IsWordArray, update, update-all,
  if-all, if◌then◌else◌,
}
use mathlib.Core.Path.{subst}
use multicore_proccessor.Bus.Packet.{Packet, Command, request, invalid_originator}
use multicore_proccessor.Bus.State.{Bus, add_transaction}
use multicore_proccessor.Bus.Iteration.Words.{IsWordPacket, HasWords, add_transaction-HasWords}
use multicore_proccessor.Cache.Address.{slot, index_of, address_of}
use multicore_proccessor.Cache.State.{CacheData, Shared, line, holds, is_modified}
use multicore_proccessor.Cache.Access.{
  busy, read_data, write_data, dirty_block_handling, miss, upgrade,
}
use multicore_proccessor.Cache.Snoop.{cache_snooping_handle, cache_response_handle}
use multicore_proccessor.Cache.ReadWrite.{read_data-outcome}

-- What a read brings, if it brings a word.
abbrev pub IsWordOption : Option ℕ → Type 0
IsWordOption none = Unit {0}
IsWordOption (some w) = IsWord w

miss-HasWords :
    (c : CacheData) (b : Bus) (a : ℕ) (cmd : Command)
    → IsWordArray c.dsram
    → HasWords b
    → HasWords (miss c b a cmd)
unfolding miss dirty_block_handling
miss-HasWords c b a cmd h w =
    let flush =
      request c.id Command.flush (address_of (line c a).tag (index_of a) 0) (c.dsram (slot a)) in
    add_transaction-HasWords (dirty_block_handling c a b) (request c.id cmd a 0)
      (if-all HasWords (is_modified (line c a).mesi) (add_transaction b flush) b
        (add_transaction-HasWords b flush w (h (slot a))) w)
      (omega arith)

upgrade-HasWords : (b : Bus) (id a : ℕ) → HasWords b → HasWords (upgrade b id a)
unfolding upgrade
upgrade-HasWords b id a w =
    add_transaction-HasWords (add_transaction b (request id Command.bus_rd_x a 0))
      (request invalid_originator Command.no_command 0 0)
      (add_transaction-HasWords b (request id Command.bus_rd_x a 0) w (omega arith)) (omega arith)

read_data-bus :
    (c : CacheData) (s : Shared) (a : ℕ)
    → ((read_data c s a).2.bus ≡ s.bus) ⊎ ((read_data c s a).2.bus ≡ miss c s.bus a Command.bus_rd)
unfolding read_data
read_data-bus c s a = ground arith

write_data-bus :
    (c : CacheData) (s : Shared) (a w : ℕ)
    → ((write_data c s a w).2.bus ≡ s.bus)
      ⊎ ((write_data c s a w).2.bus ≡ miss c s.bus a Command.bus_rd_x)
      ⊎ ((write_data c s a w).2.bus ≡ upgrade s.bus c.id a)
unfolding write_data
write_data-bus c s a w = ground arith

write_data-dsram :
    (c : CacheData) (s : Shared) (a w : ℕ)
    → ((write_data c s a w).1.dsram ≡ c.dsram)
      ⊎ ((write_data c s a w).1.dsram ≡ update c.dsram (slot a) w)
unfolding write_data
write_data-dsram c s a w = ground arith

pub read_data-words :
    (c : CacheData) (s : Shared) (a : ℕ)
    → IsWordArray c.dsram
    → HasWords s.bus
    → let (loaded, c', s') = read_data c s a in
      IsWordOption loaded × IsWordArray c'.dsram × HasWords s'.bus
read_data-words c s a h w =
    let outcome = read_data-outcome c s a in
    (
      subst IsWordOption (sym outcome.0) (
          if-all IsWordOption (busy s.bus c.id) none
            (if holds c a then some (c.dsram (slot a)) else none) tt
            (if-all IsWordOption (holds c a) (some (c.dsram (slot a))) none (h (slot a)) tt)),
      subst IsWordArray (sym outcome.1) h,
      (elim (read_data-bus c s a) [
        | inl same ↦ subst HasWords (sym same) w
        | inr asked ↦ subst HasWords (sym asked) (miss-HasWords c s.bus a Command.bus_rd h w)
      ]),
    )

pub write_data-words :
    (c : CacheData) (s : Shared) (a w : ℕ)
    → IsWordArray c.dsram
    → HasWords s.bus
    → IsWord w
    → let (_, c', s') = write_data c s a w in IsWordArray c'.dsram × HasWords s'.bus
write_data-words c s a w h b k = (
  (elim (write_data-dsram c s a w) [
    | inl same ↦ subst IsWordArray (sym same) h
    | inr stored ↦ subst IsWordArray (sym stored) (update-all IsWord c.dsram (slot a) w h k)
  ]),
  (elim (write_data-bus c s a w) [
    | inl same ↦ subst HasWords (sym same) b
    | inr (inl asked) ↦ subst HasWords (sym asked) (miss-HasWords c s.bus a Command.bus_rd_x h b)
    | inr (inr asked) ↦ subst HasWords (sym asked) (upgrade-HasWords s.bus c.id a b)
  ]),
)

snooped :
    (c : CacheData) (p : Packet) (offset : ℕ)
    → let (_, c', p') = cache_snooping_handle c p offset in
      (c'.dsram ≡ c.dsram)
      × ((p'.bus_data ≡ p.bus_data) ⊎ (p'.bus_data ≡ c.dsram (slot p.bus_addr)))
unfolding cache_snooping_handle
snooped c p offset = ground arith

pub cache_snooping_handle-words :
    (c : CacheData) (p : Packet) (offset : ℕ)
    → IsWordArray c.dsram
    → IsWordPacket p
    → let (_, c', p') = cache_snooping_handle c p offset in IsWordArray c'.dsram × IsWordPacket p'
cache_snooping_handle-words c p offset h k =
    let (words, word) = snooped c p offset in
    (
      subst IsWordArray (sym words) h,
      (elim word [
        | inl same ↦ subst IsWord (sym same) k
        | inr own ↦ subst IsWord (sym own) (h (slot p.bus_addr))
      ]),
    )

responded :
    (c : CacheData) (p : Packet) (offset : ℕ)
    → ((cache_response_handle c p offset).1.dsram ≡ c.dsram)
      ⊎ ((cache_response_handle c p offset).1.dsram ≡ update c.dsram (slot p.bus_addr) p.bus_data)
unfolding cache_response_handle
responded c p offset = ground arith

pub cache_response_handle-words :
    (c : CacheData) (p : Packet) (offset : ℕ)
    → IsWordArray c.dsram
    → IsWordPacket p
    → IsWordArray (cache_response_handle c p offset).1.dsram
cache_response_handle-words c p offset h k = elim (responded c p offset) [
  | inl same ↦ subst IsWordArray (sym same) h
  | inr stored ↦
      subst IsWordArray (sym stored) (update-all IsWord c.dsram (slot p.bus_addr) p.bus_data h k)
]
