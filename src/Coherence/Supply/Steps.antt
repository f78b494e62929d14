-- ===== src/Coherence/Supply/Steps.antt =====
-- The packet that one `Bus_Iter` of Interface/src/Bus.c hands over while an owner supplies a block.
use multicore_proccessor.Common.{
  ℕ, ◌+◌, ◌-◌, ◌%◌, ◌<◌, ◌≡◌, ◌≢◌, sym, ap, ◌∙◌, true, false, List, arith, ◌==◌, if◌then◌else◌,
  update,
}
use mathlib.Core.Path.{subst}
use native.Mathlib.Decide.{ℕ_discrete}
use multicore_proccessor.Bus.Packet.{Packet, Command}
use multicore_proccessor.Bus.State.{Bus}
use multicore_proccessor.Bus.Iteration.{iter, respond, deliver, word_packet}
use multicore_proccessor.Bus.Iteration.Quiet.{iter-transfer}
use multicore_proccessor.Bus.Iteration.Owned.{Signals, Answers, transfer-owned}
use multicore_proccessor.Cache.State.{Mesi, CacheData, line, holds, set_mesi}
use multicore_proccessor.Processor.{callbacks}
use multicore_proccessor.Coherence.Fetch.Answers.{IsFetch, word_addr, fetch_packet}
use multicore_proccessor.Coherence.Fetch.Progress.{Hardware}
use multicore_proccessor.Coherence.Fetch.Steps.{counted}
use multicore_proccessor.Coherence.Supply.Answers.{
  shared_request, owner_packet, given_up, signal-stays, signal-owner, snooping-absent,
  snooping-owner, taken, memory-takes,
}
use multicore_proccessor.Coherence.Supply.Progress.{Owned, owned_word, Supplying}

shared_packet_lem :
    (b : Bus) {i a : ℕ} {cmd : Command}
    → b.current_packet ≡ fetch_packet i cmd a
    → word_packet b true ≡ shared_request i cmd a b.address_offset
unfolding word_packet
shared_packet_lem b h =
    ap
      (λ (p : Packet). record p {
        bus_addr = p.bus_addr - p.bus_addr % 8 + b.address_offset % 8;
        bus_shared = true;
      })
      h

pub invalid_absent : (c : CacheData) (a : ℕ) → (line c a).mesi ≡ Mesi.invalid → holds c a ≡ false
invalid_absent c a h = ground (arith, h)

module _ (i o : ℕ) (cmd : Command) (a : ℕ) (caches : ℕ → CacheData) (words : ℕ → ℕ)
    (queue : List Packet) (fetch : IsFetch cmd) (owned : Owned i o a caches) where
  pub Owned-Signals :
      (s : Hardware)
      → s.bus.current_packet ≡ fetch_packet i cmd a
      → s.caches o ≡ caches o
      → Signals callbacks s.caches o s.bus.current_packet
  Owned-Signals s packet same = subst (Signals callbacks s.caches o) (sym packet) (record {
    stays = λ j. signal-stays i o cmd a (s.caches j);
    owner = λ modified.
        ap (λ (c : CacheData). callbacks.signal c (fetch_packet i cmd a) modified) same
        ∙ signal-owner i o cmd a (caches o) modified (owned.ids o) owned.ne owned.held owned.owned;
  })

  -- In its course as at the beginning, no other cache holds the block.
  Supplying-absent :
      {k : ℕ} (s : Hardware) (j : ℕ)
      → Supplying i o cmd a caches words queue k s
      → j ≢ o
      → holds (s.caches j) a ≡ false
  Supplying-absent s j h ne = elim (ℕ_discrete j i) [
    | yes same ↦
        subst (λ (x : ℕ). holds (s.caches x) a ≡ false) (sym same)
          (invalid_absent (s.caches i) a h.invalid)
    | no other ↦
        subst (λ (c : CacheData). holds c a ≡ false) (sym (h.others j other)) (owned.absent j ne)
  ]

  -- The owner's cache after it has supplied a word.
  abbrev pub supplier : ℕ → CacheData
  supplier k = if k == 7 then set_mesi (caches o) (word_addr a k) (given_up cmd) else caches o

  Supplying-Answers :
      {k : ℕ} (s : Hardware)
      → Supplying i o cmd a caches words queue k s
      → Answers callbacks s.caches o
          (shared_request i cmd a k)
          (owner_packet i o cmd a k (owned_word i o cmd a caches words queue k))
          (supplier k)
          k
  Supplying-Answers {k} s h = record {
    before = λ j ne. (snooping-absent i o cmd a (s.caches j) k 0 (Supplying-absent s j h ne)).0;
    after = λ j ne. (snooping-absent i o cmd a (s.caches j) k _ (Supplying-absent s j h ne)).1;
    owner =
        ap (λ (c : CacheData). callbacks.snooping c (shared_request i cmd a k) k)
          (h.others o owned.ne)
        ∙ snooping-owner i o a (caches o) k fetch (owned.ids o) owned.ne owned.held owned.owned;
  }

  -- What is handed over, and to which state of the hardware.
  abbrev pub handing : ℕ → Hardware → Hardware
  handing k s = record (counted s) {
    caches = update s.caches o (supplier k);
    memory = taken s.memory a k (owned_word i o cmd a caches words queue k);
  }

  pub Supplying-delivers :
      {k : ℕ} (s : Hardware)
      → k < 8
      → Supplying i o cmd a caches words queue k s
      → iter callbacks s
        ≡ deliver callbacks
            (handing k s)
            (owner_packet i o cmd a k (owned_word i o cmd a caches words queue k))
  unfolding respond
  Supplying-delivers {k} s lt h =
      let q = owner_packet i o cmd a k (owned_word i o cmd a caches words queue k) in
      let sent : word_packet (counted s).bus true ≡ shared_request i cmd a k =
        shared_packet_lem (counted s).bus h.packet ∙ ap (shared_request i cmd a) h.offset in
      iter-transfer callbacks s h.progress
        (ap (λ (p : Packet). s.bus.transaction_state p.bus_origid) h.packet ∙ h.operation)
      ∙ transfer-owned callbacks (counted s) o owned.owner
          (Owned-Signals (counted s) h.packet (h.others o owned.ne)) {q = q} {c = supplier k}
          h.later
          (subst
            (λ (p : Packet). Answers callbacks s.caches o p q (supplier k) s.bus.address_offset)
            (sym sent)
            (subst (Answers callbacks s.caches o (shared_request i cmd a k) q (supplier k))
              (sym h.offset) (Supplying-Answers s h)))
      ∙ ap (respond callbacks (record (counted s) { caches = update s.caches o (supplier k) })) (
          memory-takes s.memory i o cmd a k (owned_word i o cmd a caches words queue k) lt h.busy
            h.counter)
