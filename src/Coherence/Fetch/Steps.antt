-- ===== src/Coherence/Fetch/Steps.antt =====
-- One `Bus_Iter` of Interface/src/Bus.c in a fetch: it waits for the memory, hands over a word, or
-- hands over the last word.
use multicore_proccessor.Common.{
  ℕ, suc, ◌+◌, ◌-◌, ◌%◌, ◌≤◌, ◌<◌, ◌≡◌, refl, sym, ap, ◌∙◌, true, false, List, arith, ◌==◌,
  if◌then◌else◌, update, update_self, update_ne, u32,
}
use mathlib.Core.Path.{subst}
use native.Mathlib.Decide.{ℕ_discrete}
use multicore_proccessor.Bus.Packet.{Packet, Command}
use multicore_proccessor.Bus.State.{Bus}
use multicore_proccessor.Bus.Iteration.{
  word_packet, iter, respond, deliver, complete, print_bus_status,
}
use multicore_proccessor.Bus.Iteration.Quiet.{NoSignal, NoAnswer, iter-quiet, deliver-word}
use multicore_proccessor.Memory.{bus_transaction_handler}
use multicore_proccessor.Cache.State.{CacheData}
use multicore_proccessor.Cache.Snoop.{store_word, cache_response_handle}
use multicore_proccessor.Processor.{callbacks}
use multicore_proccessor.Coherence.Fetch.Answers.{
  IsFetch, word_addr, fetch_packet, memory_packet, memory-waits, memory-answers, Aside,
  Aside-signal, Aside-snooping, response-continues,
}
use multicore_proccessor.Coherence.Fetch.Progress.{Hardware, Filled, Steady, Fetching, Filled-store}

-- The request as it stands on the bus for a word of the block.
abbrev pub word_request : ℕ → Command → ℕ → ℕ → Packet
word_request i cmd a o = record (fetch_packet i cmd a) { bus_addr = word_addr a o }

pub word_packet_lem :
    (b : Bus) {i a : ℕ} {cmd : Command}
    → b.current_packet ≡ fetch_packet i cmd a
    → word_packet b false ≡ word_request i cmd a b.address_offset
unfolding word_packet
word_packet_lem b h =
    ap
      (λ (p : Packet). record p {
        bus_addr = p.bus_addr - p.bus_addr % 8 + b.address_offset % 8;
        bus_shared = false;
      })
      h

abbrev pub counted : Hardware → Hardware
counted s = record s { bus = record s.bus { iter_counter = u32 (s.bus.iter_counter + 1) } }

-- The count after an iteration in which the memory brings a word.
abbrev pub answered : Hardware → Hardware
answered s = record (counted s) {
  memory = record s.memory {
    counter = suc s.memory.counter;
    transaction = if s.memory.counter == 23 then false else true;
  };
}

module _ {i : ℕ} {cmd : Command} {a : ℕ} {caches : ℕ → CacheData} {words : ℕ → ℕ}
    {queue : List Packet} (fetch : IsFetch cmd)
    (uninvolved : (j : ℕ) → Aside i a j (caches j)) where
  -- In the course of the fetch as at its beginning, no other cache is involved.
  pub Steady-Aside :
      (s : Hardware) (j : ℕ)
      → Steady i cmd a caches words queue s
      → (s.caches i).id ≡ i
      → Aside i a j (s.caches j)
  Steady-Aside s j h id = elim (ℕ_discrete j i) [
    | yes same ↦ record {
      id = subst (λ (x : ℕ). (s.caches x).id ≡ x) (sym same) id;
      absent = λ ne. absurd (ne same);
      clean = λ ne. absurd (ne same);
    }
    | no other ↦ subst (λ (c : CacheData). Aside i a j c) (sym (h.others j other)) (uninvolved j)
  ]

  pub iter-Fetching :
      {n : ℕ} (s : Hardware)
      → Fetching i cmd a caches words queue n s
      → iter callbacks s
        ≡ respond callbacks
            (counted s)
            (bus_transaction_handler s.memory (word_request i cmd a s.bus.address_offset) false)
  iter-Fetching s h =
      let aside : (j : ℕ) → Aside i a j (s.caches j) = λ j. Steady-Aside s j h.steady h.filled.id in
      let e = word_packet_lem s.bus h.packet in
      iter-quiet callbacks s h.progress
        (ap (λ (p : Packet). s.bus.transaction_state p.bus_origid) h.packet ∙ h.operation)
        (subst (λ (p : Packet). NoSignal callbacks s.caches p) (sym h.packet)
          (λ j. Aside-signal (s.caches j) cmd (aside j)))
        (subst (λ (p : Packet). NoAnswer callbacks s.caches p s.bus.address_offset) (sym e)
          (λ j. Aside-snooping (s.caches j) s.bus.address_offset fetch (aside j)))
      ∙ ap
          (λ (p : Packet). respond callbacks (counted s) (bus_transaction_handler s.memory p false))
          e

  -- A call of the memory within its latency.
  pub Fetching-waits :
      {n : ℕ} (s : Hardware)
      → n < 16
      → Fetching i cmd a caches words queue n s
      → Fetching i cmd a caches words queue (suc n) (iter callbacks s)
  unfolding respond
  Fetching-waits {n} s lt h =
      let next = record (counted s) {
        memory = record s.memory { counter = suc s.memory.counter };
      } in
      let e : iter callbacks s ≡ next =
        iter-Fetching s h
        ∙ ap (respond callbacks (counted s)) (
            memory-waits s.memory (word_request i cmd a s.bus.address_offset) fetch refl h.busy
              (rw h.counter lt)) in
      let none : n - 16 ≡ suc n - 16 = omega arith in
      subst (Fetching i cmd a caches words queue (suc n)) (sym e) (record {
        progress = h.progress;
        operation = h.operation;
        packet = h.packet;
        offset = h.offset ∙ none;
        counter = ap suc h.counter;
        busy = h.busy;
        filled = subst (λ (x : ℕ). Filled i cmd a caches words queue x (s.caches i)) none h.filled;
        steady = record {
          contents = h.steady.contents;
          queued = h.steady.queued;
          others = h.steady.others;
        };
      })

  -- A call of the memory that brings a word.
  pub Fetching-word :
      {n : ℕ} (s : Hardware)
      → 16 ≤ n
      → n ≤ 23
      → Fetching i cmd a caches words queue n s
      → iter callbacks s ≡ deliver callbacks (answered s) (memory_packet i cmd a (n - 16) words)
  unfolding respond
  Fetching-word {n} s ge le h =
      iter-Fetching s h
      ∙ ap (respond callbacks (counted s)) (
          memory-answers s.memory (word_request i cmd a s.bus.address_offset) fetch refl h.busy
            (rw h.counter ge) (rw h.counter le))
      ∙ ap (λ (o : ℕ). deliver callbacks (answered s) (memory_packet i cmd a o s.memory.words))
          h.offset
      ∙ ap (λ (w : ℕ → ℕ). deliver callbacks (answered s) (memory_packet i cmd a (n - 16) w))
          h.steady.contents

  pub Fetching-hands_over :
      {n : ℕ} (s : Hardware)
      → 16 ≤ n
      → n < 23
      → Fetching i cmd a caches words queue n s
      → Fetching i cmd a caches words queue (suc n) (iter callbacks s)
  unfolding complete print_bus_status
  Fetching-hands_over {n} s ge lt h =
      let p = memory_packet i cmd a (n - 16) words in
      let c = store_word (s.caches i) p in
      let e =
        Fetching-word s ge (omega arith) h
        ∙ deliver-word callbacks (answered s) p (ap (λ (q : Packet). q.bus_origid) h.packet) (
            ap (cache_response_handle (s.caches i) p) h.offset
            ∙ response-continues (s.caches i) cmd a (n - 16) words h.filled.id (omega arith)) in
      let count : suc (n - 16) ≡ suc n - 16 = omega arith in
      subst (Fetching i cmd a caches words queue (suc n)) (sym e) (record {
        progress = h.progress;
        operation = h.operation;
        packet = h.packet;
        offset = count;
        counter = ap suc h.counter;
        busy = ground (arith, h.counter);
        filled =
            subst (λ (x : ℕ). Filled i cmd a caches words queue x (update s.caches i c i)) count
              (subst (Filled i cmd a caches words queue (suc (n - 16)))
                (sym (update_self s.caches i c))
                (Filled-store i cmd a caches words queue (s.caches i) (n - 16) (omega arith)
                  h.filled));
        steady = record {
          contents = h.steady.contents;
          queued = h.steady.queued;
          others = λ j ne. update_ne s.caches c (λ e. ne (sym e)) ∙ h.steady.others j ne;
        };
      })
