-- ===== src/Coherence/Supply/Whole.antt =====
-- The whole supply of a block, iteration by iteration of `Bus_Iter` of Interface/src/Bus.c.
use multicore_proccessor.Common.{
  ℕ, zero, suc, ◌<◌, ◌≡◌, refl, ◌∙◌, sym, true, false, List, ◌∷◌, arith, update_self,
}
use mathlib.Core.Path.{subst}
use multicore_proccessor.Bus.Packet.{Packet, Command, request}
use multicore_proccessor.Bus.State.{TransactionState}
use multicore_proccessor.Bus.Iteration.{iter, start, release, print_bus_status}
use multicore_proccessor.Bus.Iteration.Quiet.{iter-begin}
use multicore_proccessor.Bus.Iteration.Owned.{transfer-waits}
use multicore_proccessor.Processor.{callbacks}
use multicore_proccessor.Coherence.Fetch.Answers.{IsFetch}
use multicore_proccessor.Coherence.Fetch.Progress.{Hardware}
use multicore_proccessor.Coherence.Fetch.Whole.{iterations}
use multicore_proccessor.Coherence.Supply.Progress.{Owned, Supplying, Supplied}
use multicore_proccessor.Coherence.Supply.Steps.{Owned-Signals}
use multicore_proccessor.Coherence.Supply.Ends.{Supplying-hands_over, Supplying-ends}

-- An idle bus whose queue begins with a core's request for a block that another core owns, and an
-- idle memory.
pub record OwnedRequest (i o : ℕ) (cmd : Command) (a : ℕ) (queue : List Packet) (s : Hardware)
    : Type 0 where
  pub fetch : IsFetch cmd
  pub owned : Owned i o a s.caches
  pub idle : s.bus.in_progress ≡ false
  pub queued : s.bus.queue ≡ request i cmd a 0 ∷ queue
  pub closed : s.memory.transaction ≡ false

module _ {i o : ℕ} {cmd : Command} {a : ℕ} {queue : List Packet} (s : Hardware)
    (h : OwnedRequest i o cmd a queue s) where
  Supplying-begins : Supplying i o cmd a s.caches s.memory.words queue 0 (iter callbacks s)
  unfolding start print_bus_status
  Supplying-begins =
      let began = record s {
        bus =
            start (record (release s.bus) { is_first_shared = true; queue = queue })
              (request i cmd a 0);
      } in
      let e =
        iter-begin callbacks s h.idle h.queued (λ e. omega (arith, e, h.owned.requester))
        ∙ transfer-waits callbacks began o h.owned.owner
            (Owned-Signals i o cmd a s.caches s.memory.words queue h.fetch h.owned began refl refl)
            refl in
      subst (Supplying i o cmd a s.caches s.memory.words queue 0) (sym e) (record {
        progress = refl;
        operation = update_self (release s.bus).transaction_state i TransactionState.operation;
        packet = refl;
        later = refl;
        offset = refl;
        busy = h.closed;
        counter = λ l. absurd (omega (arith, l));
        filled = record {
          id = h.owned.ids i;
          block = λ x l. absurd (omega (arith, l));
          other_words = λ x n. refl;
          other_lines = λ f n. refl;
          tag = λ l. absurd (omega (arith, l));
        };
        invalid = h.owned.invalid;
        contents = λ x. ground arith;
        queued = refl;
        others = λ j ne. refl;
      })

  Supplying-iterations :
      (n : ℕ) → n < 8 → Supplying i o cmd a s.caches s.memory.words queue n (iterations (suc n) s)
  unfolding iterations
  Supplying-iterations zero lt = Supplying-begins
  Supplying-iterations (suc n) lt =
      Supplying-hands_over i o cmd a s.caches s.memory.words queue h.fetch h.owned
        (iterations (suc n) s) (omega arith) (Supplying-iterations n (omega arith))

  -- A core's BusRd or BusRdX at the head of the queue, with bus and memory idle, for a block that
  -- another core owns and no third holds, and in whose place the requester's line is invalid, is
  -- served by 9 iterations of the bus: the bus and the memory are idle again; the requester's line is
  -- shared, with the tag of the address and the owner's eight words, which the memory holds now too;
  -- the owner's line is shared after a BusRd and invalid after a BusRdX; all other words, lines and
  -- caches and the rest of the queue are as they were.
  pub iterations-Supplied : Supplied i o cmd a s.caches s.memory.words queue (iterations 9 s)
  unfolding iterations
  iterations-Supplied =
      Supplying-ends i o cmd a s.caches s.memory.words queue h.fetch h.owned (iterations 8 s)
        (Supplying-iterations 7 (omega arith))
