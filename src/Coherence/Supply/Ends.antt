-- ===== src/Coherence/Supply/Ends.antt =====
-- One `Bus_Iter` of Interface/src/Bus.c that hands over a word of an owner, and the last one.
use multicore_proccessor.Common.{
  ℕ, suc, ◌<◌, ◌≡◌, ◌≢◌, refl, sym, ap, ◌∙◌, true, false, List, arith, ◌==◌, if◌then◌else◌, update,
  update_ne, update_self,
}
use mathlib.Core.Path.{subst}
use native.Mathlib.Decide.{ℕ_discrete}
use multicore_proccessor.Bus.Packet.{Packet, Command}
use multicore_proccessor.Bus.Iteration.{iter, complete, print_bus_status}
use multicore_proccessor.Bus.Iteration.Quiet.{deliver-word}
use multicore_proccessor.Cache.State.{Mesi, CacheData, line, set_mesi}
use multicore_proccessor.Cache.Snoop.{store_word, cache_response_handle}
use multicore_proccessor.Processor.{callbacks}
use multicore_proccessor.Coherence.Fetch.Answers.{IsFetch, word_addr, word_addr_lem}
use multicore_proccessor.Coherence.Fetch.Progress.{Hardware, Filled}
use multicore_proccessor.Coherence.Supply.Answers.{owner_packet, response-takes, response-ends}
use multicore_proccessor.Coherence.Supply.Progress.{
  Owned, owned_word, supplied, supplied-suc, Supplying, Supplied, Filled-supply,
}
use multicore_proccessor.Coherence.Supply.Steps.{supplier, handing, Supplying-delivers}

not_last {ℓ} : {A : Type ℓ} (k : ℕ) (x y : A) → k ≢ 7 → (if k == 7 then x else y) ≡ y
not_last k x y h = ground arith

busy_lem : (k : ℕ) → k < 7 → (if k == 7 then false else true) ≡ (if suc k == 0 then false else true)
busy_lem k lt = ground arith

store_word-mesi :
    (c : CacheData) (i o : ℕ) (cmd : Command) (a k w : ℕ)
    → (line (store_word c (owner_packet i o cmd a k w)) a).mesi ≡ (line c a).mesi
unfolding store_word
store_word-mesi c i o cmd a k w = ground (arith, word_addr_lem a k)

module _ (i o : ℕ) (cmd : Command) (a : ℕ) (caches : ℕ → CacheData) (words : ℕ → ℕ)
    (queue : List Packet) (fetch : IsFetch cmd) (owned : Owned i o a caches) where
  supplier-others :
      {k : ℕ} (s : Hardware)
      → Supplying i o cmd a caches words queue k s
      → supplier i o cmd a caches words queue fetch owned k ≡ caches o
      → (j : ℕ) → j ≢ i
      → update s.caches o (supplier i o cmd a caches words queue fetch owned k) j ≡ caches j
  supplier-others {k} s h kept j ne = elim (ℕ_discrete o j) [
    | yes same ↦
        subst
          (λ (x : ℕ).
            update s.caches o (supplier i o cmd a caches words queue fetch owned k) x ≡ caches x)
          same (update_self s.caches o (supplier i o cmd a caches words queue fetch owned k) ∙ kept)
    | no other ↦
        update_ne s.caches (supplier i o cmd a caches words queue fetch owned k) other
        ∙ h.others j ne
  ]

  pub Supplying-hands_over :
      {k : ℕ} (s : Hardware)
      → k < 7
      → Supplying i o cmd a caches words queue k s
      → Supplying i o cmd a caches words queue (suc k) (iter callbacks s)
  unfolding complete print_bus_status
  Supplying-hands_over {k} s lt h =
      let q = owner_packet i o cmd a k (owned_word i o cmd a caches words queue k) in
      let c = store_word (s.caches i) q in
      let kept : supplier i o cmd a caches words queue fetch owned k ≡ caches o =
        not_last k _ (caches o) (omega (arith, lt)) in
      let mine : update s.caches o (supplier i o cmd a caches words queue fetch owned k) i
          ≡ s.caches i =
        update_ne s.caches (supplier i o cmd a caches words queue fetch owned k) owned.ne in
      let e =
        Supplying-delivers i o cmd a caches words queue fetch owned s (omega (arith, lt)) h
        ∙ deliver-word callbacks (handing i o cmd a caches words queue fetch owned k s) q
            (ap (λ (p : Packet). p.bus_origid) h.packet)
            (ap (λ (x : CacheData). cache_response_handle x q s.bus.address_offset) mine
              ∙ ap (cache_response_handle (s.caches i) q) h.offset
              ∙ response-takes i o cmd a (s.caches i) k (owned_word i o cmd a caches words queue k)
                  h.filled.id lt) in
      subst (Supplying i o cmd a caches words queue (suc k)) (sym e) (record {
        progress = h.progress;
        operation = h.operation;
        packet = h.packet;
        later = h.later;
        offset = refl;
        busy = busy_lem k lt;
        counter = λ _. omega arith;
        filled =
            subst (Filled i cmd a caches (supplied i o cmd a caches words queue 8) queue (suc k))
              (sym (
                update_self
                  (update s.caches o (supplier i o cmd a caches words queue fetch owned k)) i c))
              (Filled-supply i o cmd a caches words queue (s.caches i) k (omega (arith, lt))
                h.filled);
        invalid =
            subst (λ (x : CacheData). (line x a).mesi ≡ Mesi.invalid)
              (sym (
                update_self
                  (update s.caches o (supplier i o cmd a caches words queue fetch owned k)) i c))
              (store_word-mesi (s.caches i) i o cmd a k _ ∙ h.invalid);
        contents = λ x.
            supplied-suc i o cmd a caches words queue k x s.memory.words (omega (arith, lt))
              h.contents;
        queued = h.queued;
        others = λ j ne.
            update_ne (update s.caches o (supplier i o cmd a caches words queue fetch owned k)) c
              (λ e. ne (sym e))
            ∙ supplier-others s h kept j ne;
      })

  -- With its new state the requester's line keeps the block.
  Filled-shared :
      (c : CacheData)
      → Filled i cmd a caches (supplied i o cmd a caches words queue 8) queue 8 c
      → let d = set_mesi c (word_addr a 7) Mesi.shared in
        Filled i cmd a caches (supplied i o cmd a caches words queue 8) queue 8 d
        × ((line d a).mesi ≡ Mesi.shared)
  Filled-shared c h = (
    record {
      id = h.id;
      block = h.block;
      other_words = h.other_words;
      other_lines = λ f ne. ground (arith, word_addr_lem a 7, h.other_lines f ne);
      tag = λ l. ground (arith, word_addr_lem a 7, h.tag l);
    },
    ground (arith, word_addr_lem a 7),
  )

  pub Supplying-ends :
      (s : Hardware)
      → Supplying i o cmd a caches words queue 7 s
      → Supplied i o cmd a caches words queue (iter callbacks s)
  unfolding complete print_bus_status
  Supplying-ends s h =
      let w = owned_word i o cmd a caches words queue 7 in
      let q = owner_packet i o cmd a 7 w in
      let stored = store_word (s.caches i) q in
      let c = set_mesi stored (word_addr a 7) Mesi.shared in
      let mine : update s.caches o (supplier i o cmd a caches words queue fetch owned 7) i
          ≡ s.caches i =
        update_ne s.caches (supplier i o cmd a caches words queue fetch owned 7) owned.ne in
      let sender : s.bus.current_packet.bus_origid ≡ i =
        ap (λ (p : Packet). p.bus_origid) h.packet in
      let e =
        Supplying-delivers i o cmd a caches words queue fetch owned s (omega arith) h
        ∙ deliver-word callbacks (handing i o cmd a caches words queue fetch owned 7 s) q sender (
            ap (λ (x : CacheData). cache_response_handle x q s.bus.address_offset) mine
            ∙ ap (cache_response_handle (s.caches i) q) h.offset
            ∙ response-ends i o cmd a (s.caches i) w h.filled.id) in
      let ended =
        Filled-shared stored
          (Filled-supply i o cmd a caches words queue (s.caches i) 7 (omega arith) h.filled) in
      let placed = sym (
        update_self (update s.caches o (supplier i o cmd a caches words queue fetch owned 7)) i
          c) in
      subst (Supplied i o cmd a caches words queue) (sym e) (record {
        idle = refl;
        finally = ground (arith, sender);
        sender = sender;
        closed = refl;
        filled =
            subst (Filled i cmd a caches (supplied i o cmd a caches words queue 8) queue 8) placed
              ended.0;
        shared = subst (λ (x : CacheData). (line x a).mesi ≡ Mesi.shared) placed ended.1;
        given =
            update_ne (update s.caches o (supplier i o cmd a caches words queue fetch owned 7)) c
              (λ e. owned.ne (sym e))
            ∙ update_self s.caches o (supplier i o cmd a caches words queue fetch owned 7);
        contents = λ x.
            supplied-suc i o cmd a caches words queue 7 x s.memory.words (omega arith) h.contents;
        queued = h.queued;
        others = λ j ne other.
            update_ne (update s.caches o (supplier i o cmd a caches words queue fetch owned 7)) c
              (λ e. ne (sym e))
            ∙ update_ne s.caches (supplier i o cmd a caches words queue fetch owned 7)
                (λ e. other (sym e))
            ∙ h.others j ne;
      })
