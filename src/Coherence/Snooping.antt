-- ===== src/Coherence/Snooping.antt =====
-- One pass of `check_cache_snooping` of Interface/src/Bus.c over the caches.
use multicore_proccessor.Common.{
  ℕ, zero, suc, ◌+◌, ◌≤◌, ◌<◌, ◌≡◌, ◌≢◌, ◌⊎◌, refl, sym, ◌∙◌, Bool, true, false, arith, ◌||◌,
  update, Bool-cases, inl, inr,
}
use native.Mathlib.Nat.{le_refl}
use native.Mathlib.Decide.{ℕ_discrete}
use multicore_proccessor.Bus.Packet.{Packet, Command, number_of_cores}
use multicore_proccessor.Bus.Iteration.{check_cache_snooping}
use multicore_proccessor.Cache.State.{Mesi, CacheData, line, holds}
use multicore_proccessor.Cache.Snoop.{cache_snooping_handle}
use multicore_proccessor.Cache.Protocol.{cache_snooping_handle-ignores}
use multicore_proccessor.Processor.{callbacks}

-- The caches after the pass, from the core `i` on, of which `n` are left.
abbrev pub after_pass : ℕ → ℕ → (ℕ → CacheData) → Packet → ℕ → Bool → ℕ → CacheData
after_pass n i caches p offset r = (check_cache_snooping callbacks n i caches p offset r).1

abbrev pub Numbered : (ℕ → CacheData) → Type 0
Numbered caches = (j : ℕ) → (caches j).id ≡ j

-- At most one cache holds an address exclusive or modified, and then no other holds it.
abbrev pub SingleOwner : (ℕ → CacheData) → ℕ → Type 0
SingleOwner caches a =
    (i j : ℕ)
    → i ≢ j
    → holds (caches i) a ≡ true
    → holds (caches j) a ≡ true
    → ((line (caches i) a).mesi ≡ Mesi.shared) × ((line (caches j) a).mesi ≡ Mesi.shared)

-- What a request leaves of another core's line: nothing, or a shared copy.
abbrev pub Yields : Command → CacheData → ℕ → Type 0
Yields Command.bus_rd_x c a = holds c a ≡ false
Yields Command.bus_rd c a = holds c a ≡ true → (line c a).mesi ≡ Mesi.shared
Yields Command.flush c a = Unit
Yields Command.no_command c a = Unit

-- A cache's part in the pass: the packet keeps its address and its sender.
snooping-keeps :
    (c : CacheData) (p : Packet) (offset : ℕ)
    → let (_, _, p') = cache_snooping_handle c p offset in
      (p'.bus_addr ≡ p.bus_addr) × (p'.bus_original_sender ≡ p.bus_original_sender)
unfolding cache_snooping_handle
snooping-keeps c p offset = ground arith

after_pass-below :
    (n i : ℕ) (caches : ℕ → CacheData) (p : Packet) (offset : ℕ) (r : Bool) (j : ℕ)
    → j < i
    → after_pass n i caches p offset r j ≡ caches j
unfolding check_cache_snooping
after_pass-below zero i caches p offset r j h = refl
after_pass-below (suc n) i caches p offset r j h =
    let (s, c, q) = cache_snooping_handle (caches i) p offset in
    ground (arith, after_pass-below n (i + 1) (update caches i c) q offset (r || s) j)

-- A cache that does not hold the address comes out of the pass as it went in.
after_pass-not_holding :
    (n i : ℕ) (caches : ℕ → CacheData) (p : Packet) (offset : ℕ) (r : Bool) (j : ℕ)
    → holds (caches j) p.bus_addr ≡ false
    → after_pass n i caches p offset r j ≡ caches j
unfolding check_cache_snooping
after_pass-not_holding zero i caches p offset r j h = refl
after_pass-not_holding (suc n) i caches p offset r j h =
    let (s, c, q) = cache_snooping_handle (caches i) p offset in
    ground (
      arith,
      snooping-keeps (caches i) p offset,
      cache_snooping_handle-ignores (caches j) p offset (inl h),
      after_pass-not_holding n (i + 1) (update caches i c) q offset (r || s) j,
    )

abbrev pub IsRequest : Command → Type 0
IsRequest cmd = (cmd ≡ Command.bus_rd) ⊎ (cmd ≡ Command.bus_rd_x)

-- Another core's cache, with the last word of the block: it yields, and the packet is as it was or, if
-- the cache held the block modified, no request any more.
record Part (cmd : Command) (c : CacheData) (p : Packet) (result : Bool × CacheData × Packet)
    : Type 0 where
  yields : Yields cmd result.1 p.bus_addr
  packet :
      (result.2 ≡ p) ⊎ ((holds c p.bus_addr ≡ true) × ((line c p.bus_addr).mesi ≡ Mesi.modified))

snooping-Part :
    (c : CacheData) (p : Packet) {cmd : Command}
    → p.bus_cmd ≡ cmd
    → IsRequest cmd
    → c.id ≢ p.bus_original_sender
    → Part cmd c p (cache_snooping_handle c p 7)
unfolding cache_snooping_handle
snooping-Part c p e request ne = ground arith

modified≢shared : Mesi.modified ≢ Mesi.shared
modified≢shared h = cc

Yields-not_holding : (cmd : Command) (c : CacheData) (a : ℕ) → holds c a ≡ false → Yields cmd c a
Yields-not_holding Command.bus_rd c a h = λ t. cc
Yields-not_holding Command.bus_rd_x c a h = h
Yields-not_holding Command.flush c a h = tt
Yields-not_holding Command.no_command c a h = tt

-- What the pass assumes of the caches from the core `i` on.
record Ready (i : ℕ) (caches : ℕ → CacheData) (a : ℕ) : Type 0 where
  numbered : (k : ℕ) → i ≤ k → (caches k).id ≡ k
  owner :
      (k l : ℕ)
      → i ≤ k
      → i ≤ l
      → k ≢ l
      → holds (caches k) a ≡ true
      → holds (caches l) a ≡ true
      → (line (caches k) a).mesi ≡ Mesi.shared

Ready-next :
    (i : ℕ) (caches : ℕ → CacheData) (a : ℕ) (c : CacheData)
    → Ready i caches a
    → Ready (i + 1) (update caches i c) a
Ready-next i caches a c ready = record {
  numbered = λ k h. ground (arith, ready.numbered k);
  owner = λ k l hk hl ne a b. ground (arith, ready.owner k l);
}

update_at : {i j : ℕ} (caches : ℕ → CacheData) (c : CacheData) → i ≡ j → update caches i c j ≡ c
update_at caches c e = ground arith

numbered_ne :
    (i : ℕ) (caches : ℕ → CacheData) (p : Packet) {j : ℕ}
    → Ready i caches p.bus_addr
    → i ≡ j
    → j ≢ p.bus_original_sender
    → (caches i).id ≢ p.bus_original_sender
numbered_ne i caches p ready e ne = ground (arith, ready.numbered i)

module _ (cmd : Command) (request : IsRequest cmd) (j : ℕ) where
  -- The owner of a modified line leaves no copy for a later cache.
  not_holding :
      (i : ℕ) (caches : ℕ → CacheData) (a : ℕ)
      → Ready i caches a
      → i < j
      → holds (caches i) a ≡ true
      → (line (caches i) a).mesi ≡ Mesi.modified
      → holds (caches j) a ≡ false
  not_holding i caches a ready lt h m = elim (Bool-cases (holds (caches j) a)) [
    | inl t ↦
        absurd
          (modified≢shared (sym m ∙ ready.owner i j (le_refl i) (omega arith) (omega arith) h t))
    | inr f ↦ f
  ]

  own :
      (i : ℕ) (caches : ℕ → CacheData) (p : Packet)
      → p.bus_cmd ≡ cmd
      → Ready i caches p.bus_addr
      → i ≡ p.bus_original_sender
      → (holds (caches i) p.bus_addr ≡ false)
        ⊎ (((caches i).id ≡ p.bus_original_sender) × (p.bus_cmd ≢ Command.flush))
  own i caches p e ready h = inr (ready.numbered i (le_refl i) ∙ h, ground arith)

  pass-Yields :
      (n i : ℕ) (caches : ℕ → CacheData) (p : Packet) (r : Bool)
      → p.bus_cmd ≡ cmd
      → Ready i caches p.bus_addr
      → i ≤ j
      → j < i + n
      → j ≢ p.bus_original_sender
      → Yields cmd (after_pass n i caches p 7 r j) p.bus_addr
  unfolding check_cache_snooping
  pass-Yields zero i caches p r e ready le lt ne = absurd (omega arith)
  pass-Yields (suc n) i caches p r e ready le lt ne =
      let (s, c, q) = cache_snooping_handle (caches i) p 7 in
      elim (ℕ_discrete i j) [
        | yes same ↦
            rw
              (
                after_pass-below n (i + 1) (update caches i c) q 7 (r || s) j (omega arith),
                update_at caches c same,
              )
              (snooping-Part (caches i) p e request (numbered_ne i caches p ready same ne)).yields
        | no other ↦ elim (ℕ_discrete i p.bus_original_sender) [
          | yes sender ↦
              rw
                (
                  cache_snooping_handle-ignores (caches i) p 7 (own i caches p e ready sender),
                  after_pass,
                )
                (pass-Yields n (i + 1) (update caches i (caches i)) p (r || false) e
                  (Ready-next i caches p.bus_addr (caches i) ready) (omega arith) (omega arith) ne)
          | no stranger ↦
              elim (snooping-Part (caches i) p e request
                (rw (ready.numbered i (le_refl i)) stranger)).packet [
                  | inl kept ↦
                      rw (kept, after_pass)
                        (pass-Yields n (i + 1) (update caches i c) p (r || s) e
                          (Ready-next i caches p.bus_addr c ready) (omega arith) (omega arith) ne)
                  | inr (h, m) ↦
                      let gone = not_holding i caches p.bus_addr ready (omega arith) h m in
                      rw
                        (after_pass-not_holding n (i + 1) (update caches i c) q 7 (r || s) j
                          (ground (arith, snooping-keeps (caches i) p 7)))
                        (Yields-not_holding cmd (update caches i c j) p.bus_addr (ground arith))
                ]
        ]
      ]

-- The pass with the last word of a block: where no address had two owners, or an owner and a copy,
-- no other core is left with the block after a BusRdX, and after a BusRd any copy of another core is
-- shared. The caches are taken to be numbered by their cores.
pub check_cache_snooping-Yields :
    (caches : ℕ → CacheData) (p : Packet) (r : Bool) (j : ℕ)
    → Numbered caches
    → SingleOwner caches p.bus_addr
    → IsRequest p.bus_cmd
    → j < number_of_cores
    → j ≢ p.bus_original_sender
    → Yields p.bus_cmd
        ((check_cache_snooping callbacks number_of_cores 0 caches p 7 r).1 j)
        p.bus_addr
check_cache_snooping-Yields caches p r j numbered owner request lt ne =
    pass-Yields p.bus_cmd request j number_of_cores 0 caches p r refl
      (record { numbered = λ k _. numbered k; owner = λ k l _ _ ne a b. (owner k l ne a b).0 })
      (omega arith) (omega arith) ne
