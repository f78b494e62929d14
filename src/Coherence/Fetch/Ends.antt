-- ===== src/Coherence/Fetch/Ends.antt =====
-- The first and the last `Bus_Iter` of Interface/src/Bus.c in a fetch.
use multicore_proccessor.Common.{
  ℕ, ◌≡◌, ◌≢◌, refl, sym, ap, ◌∙◌, true, false, List, ◌∷◌, arith, update_self, update_ne,
}
use mathlib.Core.Path.{subst}
use multicore_proccessor.Bus.Packet.{Packet, Command, request, invalid_originator}
use multicore_proccessor.Bus.State.{TransactionState}
use multicore_proccessor.Bus.Iteration.{iter, respond, complete, print_bus_status, start, release}
use multicore_proccessor.Bus.Iteration.Quiet.{NoAnswer, deliver-word, iter-begin, transfer-quiet}
use multicore_proccessor.Memory.{bus_transaction_handler}
use multicore_proccessor.Cache.State.{Mesi, CacheData, line, set_mesi}
use multicore_proccessor.Cache.Snoop.{store_word, cache_response_handle}
use multicore_proccessor.Processor.{callbacks}
use multicore_proccessor.Coherence.Fetch.Answers.{
  IsFetch, word_addr, word_addr_lem, memory_packet, memory-starts, Aside, Aside-signal,
  Aside-snooping, response-completes,
}
use multicore_proccessor.Coherence.Fetch.Progress.{
  Hardware, Filled, Fetching, Fetched, Filled-store,
}
use multicore_proccessor.Coherence.Fetch.Steps.{
  word_request, word_packet_lem, answered, Fetching-word,
}

module _ {i : ℕ} {cmd : Command} {a : ℕ} {caches : ℕ → CacheData} {words : ℕ → ℕ}
    {queue : List Packet} (fetch : IsFetch cmd)
    (uninvolved : (j : ℕ) → Aside i a j (caches j)) where
  -- With its new state the line keeps the block.
  Filled-exclusive :
      (c : CacheData)
      → Filled i cmd a caches words queue 8 c
      → let d = set_mesi c (word_addr a 7) Mesi.exclusive in
        Filled i cmd a caches words queue 8 d × ((line d a).mesi ≡ Mesi.exclusive)
  Filled-exclusive c h = (
    record {
      id = h.id;
      block = h.block;
      other_words = h.other_words;
      other_lines = λ f ne. ground (arith, word_addr_lem a 7, h.other_lines f ne);
      tag = λ l. ground (arith, word_addr_lem a 7, h.tag l);
    },
    ground (arith, word_addr_lem a 7),
  )

  pub Fetching-ends :
      (s : Hardware)
      → Fetching i cmd a caches words queue 23 s
      → Fetched i cmd a caches words queue (iter callbacks s)
  unfolding complete print_bus_status
  Fetching-ends s h =
      let p = memory_packet i cmd a 7 words in
      let stored = store_word (s.caches i) p in
      let c = set_mesi stored (word_addr a 7) Mesi.exclusive in
      let sender : s.bus.current_packet.bus_origid ≡ i =
        ap (λ (q : Packet). q.bus_origid) h.packet in
      let e =
        Fetching-word fetch uninvolved s (omega arith) (omega arith) h
        ∙ deliver-word callbacks (answered s) p sender (
            ap (cache_response_handle (s.caches i) p) h.offset
            ∙ response-completes (s.caches i) cmd a words h.filled.id) in
      let ended =
        Filled-exclusive stored
          (Filled-store i cmd a caches words queue (s.caches i) 7 (omega arith) h.filled) in
      subst (Fetched i cmd a caches words queue) (sym e) (record {
        idle = refl;
        finally = ground (arith, sender);
        sender = sender;
        closed = ground (arith, h.counter);
        filled =
            subst (Filled i cmd a caches words queue 8) (sym (update_self s.caches i c)) ended.0;
        exclusive =
            subst (λ (d : CacheData). (line d a).mesi ≡ Mesi.exclusive)
              (sym (update_self s.caches i c)) ended.1;
        steady = record {
          contents = h.steady.contents;
          queued = h.steady.queued;
          others = λ j ne. update_ne s.caches c (λ e. ne (sym e)) ∙ h.steady.others j ne;
        };
      })

module _ (s : Hardware) {i : ℕ} {cmd : Command} {a : ℕ} {queue : List Packet} where
  -- A request that no other cache is involved in is taken up by an idle bus, and goes to an idle
  -- memory in the same iteration.
  pub Fetching-begins :
      IsFetch cmd
      → ((j : ℕ) → Aside i a j (s.caches j))
      → i ≢ invalid_originator
      → s.bus.in_progress ≡ false
      → s.bus.queue ≡ request i cmd a 0 ∷ queue
      → s.memory.transaction ≡ false
      → Fetching i cmd a s.caches s.memory.words queue 1 (iter callbacks s)
  unfolding start print_bus_status respond
  Fetching-begins fetch uninvolved core idle queued closed =
      let began = record s {
        bus =
            start (record (release s.bus) { is_first_shared = true; queue = queue })
              (request i cmd a 0);
      } in
      let sent = word_packet_lem began.bus refl in
      let e =
        iter-begin callbacks s idle queued core
        ∙ transfer-quiet callbacks began (λ j. Aside-signal (s.caches j) cmd (uninvolved j))
            (subst (λ (p : Packet). NoAnswer callbacks s.caches p 0) (sym sent)
              (λ j. Aside-snooping (s.caches j) 0 fetch (uninvolved j)))
        ∙ ap (λ (p : Packet). respond callbacks began (bus_transaction_handler s.memory p false))
            sent
        ∙ ap (respond callbacks began)
            (memory-starts s.memory (word_request i cmd a 0) fetch refl closed) in
      subst (Fetching i cmd a s.caches s.memory.words queue 1) (sym e) (record {
        progress = refl;
        operation = update_self (release s.bus).transaction_state i TransactionState.operation;
        packet = refl;
        offset = refl;
        counter = refl;
        busy = refl;
        filled = record {
          id = (uninvolved i).id;
          block = λ o l. absurd (omega arith);
          other_words = λ x n. refl;
          other_lines = λ f n. refl;
          tag = λ l. absurd (omega arith);
        };
        steady = record { contents = refl; queued = refl; others = λ j n. refl };
      })
