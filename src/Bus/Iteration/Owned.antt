-- ===== src/Bus/Iteration/Owned.antt =====
-- One `Bus_Iter` of Interface/src/Bus.c, in the course of a transaction that one cache answers.
use multicore_proccessor.Common.{
  ℕ, zero, suc, ◌+◌, ◌≡◌, ◌≢◌, ◌≤◌, ◌<◌, sym, ap, ◌∙◌, refl, Bool, true, false, arith, ◌||◌,
  if◌then◌else◌, update, update_ne,
}
use native.Mathlib.Decide.{ℕ_discrete}
use multicore_proccessor.Bus.Packet.{Packet, number_of_cores}
use multicore_proccessor.Bus.Iteration.Defs.{
  Callbacks, Platform, check_shared_line, check_cache_snooping, word_packet, respond, exchange,
  transfer_word, transfer,
}
use multicore_proccessor.Bus.Iteration.Quiet.{update-same}

or_true : (b : Bool) → (b || true) ≡ true
or_true b = ground arith

module _ {C M : Type 0} (k : Callbacks C M) (caches : ℕ → C) (o : ℕ) where
  -- Once a modified line is reported, it stays so; and the cache `o` reports one.
  pub record Signals (p : Packet) : Type 0 where
    pub stays : (j : ℕ) → (k.signal (caches j) p true).1 ≡ true
    pub owner : (modified : Bool) → k.signal (caches o) p modified ≡ (true, true)

  check_shared_line-stays :
      (n i : ℕ) (p : Packet) → Signals p → check_shared_line k n i caches p true true ≡ (true, true)
  unfolding check_shared_line
  check_shared_line-stays zero i p h = refl
  check_shared_line-stays (suc n) i p h =
      ap (λ (m : Bool). check_shared_line k n (i + 1) caches p true m) (h.stays i)
      ∙ check_shared_line-stays n (i + 1) p h

  check_shared_line-owned :
      (n i : ℕ) (p : Packet) (shared modified : Bool)
      → i ≤ o
      → o < i + n
      → Signals p
      → check_shared_line k n i caches p shared modified ≡ (true, true)
  unfolding check_shared_line
  check_shared_line-owned zero i p shared modified le lt h = absurd (omega (arith, le, lt))
  check_shared_line-owned (suc n) i p shared modified le lt h = elim (ℕ_discrete i o) [
    | yes same ↦
        let e : k.signal (caches i) p modified ≡ (true, true) =
          ap (λ (x : ℕ). k.signal (caches x) p modified) same ∙ h.owner modified in
        ap (λ (r : Bool × Bool). check_shared_line k n (i + 1) caches p (shared || r.0) r.1) e
        ∙ ap (λ (b : Bool). check_shared_line k n (i + 1) caches p b true) (or_true shared)
        ∙ check_shared_line-stays n (i + 1) p h
    | no other ↦
        check_shared_line-owned n (i + 1) p _ _ (omega (arith, le, other)) (omega (arith, lt)) h
  ]

  -- The cache `o` answers, and the others leave the packet, and themselves, as they are.
  pub record Answers (p q : Packet) (c : C) (offset : ℕ) : Type 0 where
    pub before : (j : ℕ) → j ≢ o → k.snooping (caches j) p offset ≡ (false, caches j, p)
    pub after : (j : ℕ) → j ≢ o → k.snooping (caches j) q offset ≡ (false, caches j, q)
    pub owner : k.snooping (caches o) p offset ≡ (true, c, q)

  module _ {p q : Packet} {c : C} {offset : ℕ} (h : Answers p q c offset) where
    check_cache_snooping-after :
        (n i : ℕ)
        → o < i
        → check_cache_snooping k n i (update caches o c) q offset true
          ≡ (true, update caches o c, q)
    unfolding check_cache_snooping
    check_cache_snooping-after zero i lt = refl
    check_cache_snooping-after (suc n) i lt =
        let same : update caches o c i ≡ caches i =
          update_ne caches c (λ (e : o ≡ i). omega (arith, lt, e)) in
        let e : k.snooping (update caches o c i) q offset ≡ (false, caches i, q) =
          ap (λ (x : C). k.snooping x q offset) same
          ∙ h.after i (λ (e : i ≡ o). omega (arith, lt, e)) in
        ap
          (λ (r : Bool × C × Packet).
            check_cache_snooping k n (i + 1) (update (update caches o c) i r.1) r.2 offset
              (true || r.0))
          e
        ∙ ap (λ (cs : ℕ → C). check_cache_snooping k n (i + 1) cs q offset true)
            (ap (update (update caches o c) i) (sym same) ∙ update-same (update caches o c) i)
        ∙ check_cache_snooping-after n (i + 1) (omega (arith, lt))

    check_cache_snooping-owned :
        (n i : ℕ) (responded : Bool)
        → i ≤ o
        → o < i + n
        → check_cache_snooping k n i caches p offset responded ≡ (true, update caches o c, q)
    unfolding check_cache_snooping
    check_cache_snooping-owned zero i responded le lt = absurd (omega (arith, le, lt))
    check_cache_snooping-owned (suc n) i responded le lt = elim (ℕ_discrete i o) [
      | yes same ↦
          let e : k.snooping (caches i) p offset ≡ (true, c, q) =
            ap (λ (x : ℕ). k.snooping (caches x) p offset) same ∙ h.owner in
          ap
            (λ (r : Bool × C × Packet).
              check_cache_snooping k n (i + 1) (update caches i r.1) r.2 offset (responded || r.0))
            e
          ∙ ap (λ (b : Bool). check_cache_snooping k n (i + 1) (update caches i c) q offset b)
              (or_true responded)
          ∙ ap (λ (x : ℕ). check_cache_snooping k n (i + 1) (update caches x c) q offset true) same
          ∙ check_cache_snooping-after n (i + 1) (omega (arith, same))
      | no other ↦
          ap
            (λ (r : Bool × C × Packet).
              check_cache_snooping k n (i + 1) (update caches i r.1) r.2 offset (responded || r.0))
            (h.before i other)
          ∙ ap (λ (cs : ℕ → C). check_cache_snooping k n (i + 1) cs p offset (responded || false))
              (update-same caches i)
          ∙ check_cache_snooping-owned n (i + 1) _ (omega (arith, le, other)) (omega (arith, lt))
    ]

module _ {C M : Type 0} (k : Callbacks C M) (s : Platform C M) (o : ℕ) (core : o < number_of_cores)
    (signals : Signals k s.caches o s.bus.current_packet) where
  transfer-signals : transfer k s ≡ transfer_word k s (true, true)
  unfolding transfer
  transfer-signals = ap (transfer_word k s) (
      check_shared_line-owned k s.caches o number_of_cores 0 s.bus.current_packet false false
        (omega arith) core signals)

  -- The first iteration that finds a modified line only waits.
  pub transfer-waits :
      s.bus.is_first_shared ≡ true
      → transfer k s ≡ record s { bus = record s.bus { is_first_shared = false } }
  unfolding transfer_word
  transfer-waits first =
      transfer-signals
      ∙ ap
          (λ (b : Bool).
            if b
            then record s { bus = record s.bus { is_first_shared = false } }
            else exchange k s true (
                check_cache_snooping k number_of_cores 0 s.caches (word_packet s.bus true)
                  s.bus.address_offset false))
          first

  -- In a later one the owner puts its word into the packet, and the memory is called directly.
  pub transfer-owned :
      {q : Packet} {c : C}
      → s.bus.is_first_shared ≡ false
      → Answers k s.caches o (word_packet s.bus true) q c s.bus.address_offset
      → transfer k s
        ≡ respond k (record s { caches = update s.caches o c }) (k.memory s.memory q true)
  unfolding transfer_word exchange
  transfer-owned later answers =
      transfer-signals
      ∙ ap
          (λ (b : Bool).
            if b
            then record s { bus = record s.bus { is_first_shared = false } }
            else exchange k s true (
                check_cache_snooping k number_of_cores 0 s.caches (word_packet s.bus true)
                  s.bus.address_offset false))
          later
      ∙ ap (exchange k s true) (
          check_cache_snooping-owned k s.caches o answers number_of_cores 0 false (omega arith)
            core)
