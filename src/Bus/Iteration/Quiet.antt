-- ===== src/Bus/Iteration/Quiet.antt =====
-- One `Bus_Iter` of Interface/src/Bus.c, in the course of a transaction that no cache answers.
use multicore_proccessor.Common.{
  ℕ, zero, suc, ◌+◌, ◌≡◌, ◌≢◌, ◌<◌, List, [], ◌∷◌, u32, ap, ◌∙◌, refl, fun_ext, Bool, true, false,
  arith, ◌&&◌, not, if◌then◌else◌, ◌==◌, update,
}
use multicore_proccessor.Bus.Packet.{Packet, number_of_cores, invalid_originator}
use multicore_proccessor.Bus.State.{Bus, TransactionState, fifo_is_empty, fifo_dequeue}
use multicore_proccessor.Bus.Iteration.Defs.{
  Callbacks, Platform, check_shared_line, check_cache_snooping, word_packet, respond, exchange,
  transfer_word, transfer, release, proceed, iter, idle, begin, take_packet, start, deliver,
  complete, print_bus_status,
}

pub update-same {ℓ} : {A : Type ℓ} (f : ℕ → A) (i : ℕ) → update f i (f i) ≡ f
update-same f i = fun_ext λ j. ground arith

-- A transaction that is not complete is not released.
pub release-operation :
    (b : Bus)
    → b.transaction_state b.current_packet.bus_origid ≡ TransactionState.operation
    → release b ≡ record b { iter_counter = u32 (b.iter_counter + 1) }
unfolding release
release-operation b operation = ground arith

in_progress_lem {ℓ} :
    {A : Type ℓ} (empty progress : Bool) (x y z : A)
    → progress ≡ true
    → (if empty && not progress then x else (if progress then y else z)) ≡ y
in_progress_lem empty progress x y z h = ground arith

queued_lem {ℓ} :
    {A : Type ℓ} (empty progress : Bool) (x y z : A)
    → empty ≡ false
    → progress ≡ false
    → (if empty && not progress then x else (if progress then y else z)) ≡ z
queued_lem empty progress x y z h h' = ground arith

idle_lem {ℓ} :
    {A : Type ℓ} (empty progress : Bool) (x y z : A)
    → empty ≡ true
    → progress ≡ false
    → (if empty && not progress then x else (if progress then y else z)) ≡ x
idle_lem empty progress x y z h h' = ground arith

else_lem {ℓ} : {A : Type ℓ} (b : Bool) (x y : A) → b ≡ false → (if b then x else y) ≡ y
else_lem b x y h = ground arith

then_lem {ℓ} : {A : Type ℓ} (b : Bool) (x y : A) → b ≡ true → (if b then x else y) ≡ x
then_lem b x y h = ground arith

pub release-keeps :
    (b : Bus) → ((release b).queue ≡ b.queue) × ((release b).in_progress ≡ b.in_progress)
unfolding release
release-keeps b = ground arith

module _ {C M : Type 0} (k : Callbacks C M) where
  -- No cache drives the shared wire or reports a modified line for a packet.
  abbrev pub NoSignal : (ℕ → C) → Packet → Type 0
  NoSignal caches p = (j : ℕ) → k.signal (caches j) p false ≡ (false, false)

  -- Snooping a word leaves every cache and the packet as they are.
  abbrev pub NoAnswer : (ℕ → C) → Packet → ℕ → Type 0
  NoAnswer caches p offset = (j : ℕ) → k.snooping (caches j) p offset ≡ (false, caches j, p)

  check_shared_line-quiet :
      (n i : ℕ) (caches : ℕ → C) (p : Packet)
      → NoSignal caches p
      → check_shared_line k n i caches p false false ≡ (false, false)
  unfolding check_shared_line
  check_shared_line-quiet zero i caches p h = refl
  check_shared_line-quiet (suc n) i caches p h =
      rw (h i) (check_shared_line-quiet n (i + 1) caches p h)

  check_cache_snooping-quiet :
      (n i : ℕ) (caches : ℕ → C) (p : Packet) (offset : ℕ)
      → NoAnswer caches p offset
      → check_cache_snooping k n i caches p offset false ≡ (false, caches, p)
  unfolding check_cache_snooping
  check_cache_snooping-quiet zero i caches p offset h = refl
  check_cache_snooping-quiet (suc n) i caches p offset h =
      rw (h i, update-same caches i) (check_cache_snooping-quiet n (i + 1) caches p offset h)

  -- The rest of the iteration is the memory's.
  pub transfer-quiet :
      (s : Platform C M)
      → NoSignal s.caches s.bus.current_packet
      → NoAnswer s.caches (word_packet s.bus false) s.bus.address_offset
      → transfer k s ≡ respond k s (k.memory s.memory (word_packet s.bus false) false)
  unfolding transfer transfer_word exchange
  transfer-quiet s signal answer =
      ap (λ x. transfer_word k s x)
        (check_shared_line-quiet number_of_cores 0 s.caches s.bus.current_packet signal)
      ∙ ap (λ x. exchange k s false x)
          (check_cache_snooping-quiet number_of_cores 0 s.caches (word_packet s.bus false)
            s.bus.address_offset answer)

  proceed-in_progress : (s : Platform C M) → s.bus.in_progress ≡ true → proceed k s ≡ transfer k s
  unfolding proceed
  proceed-in_progress s progress =
      in_progress_lem (fifo_is_empty s.bus.queue) s.bus.in_progress (idle k s) (transfer k s)
        (begin k s) progress

  -- In a transaction under way an iteration is counted, and goes on with the transaction.
  pub iter-transfer :
      (s : Platform C M)
      → s.bus.in_progress ≡ true
      → s.bus.transaction_state s.bus.current_packet.bus_origid ≡ TransactionState.operation
      → iter k s
        ≡ transfer k
            (record s { bus = record s.bus { iter_counter = u32 (s.bus.iter_counter + 1) } })
  unfolding iter
  iter-transfer s progress operation =
      ap (λ b. proceed k (record s { bus = b })) (release-operation s.bus operation)
      ∙ proceed-in_progress
          (record s { bus = record s.bus { iter_counter = u32 (s.bus.iter_counter + 1) } }) progress

  -- In a transaction under way.
  pub iter-quiet :
      (s : Platform C M)
      → s.bus.in_progress ≡ true
      → s.bus.transaction_state s.bus.current_packet.bus_origid ≡ TransactionState.operation
      → NoSignal s.caches s.bus.current_packet
      → NoAnswer s.caches (word_packet s.bus false) s.bus.address_offset
      → let counted = record s {
        bus = record s.bus { iter_counter = u32 (s.bus.iter_counter + 1) };
      } in
        iter k s ≡ respond k counted (k.memory s.memory (word_packet s.bus false) false)
  unfolding word_packet
  iter-quiet s progress operation signal answer =
      let counted = record s {
        bus = record s.bus { iter_counter = u32 (s.bus.iter_counter + 1) };
      } in
      iter-transfer s progress operation ∙ transfer-quiet counted signal answer

  begin-takes :
      (s : Platform C M) {item : Packet} {rest : List Packet}
      → s.bus.in_progress ≡ false
      → s.bus.queue ≡ item ∷ rest
      → item.bus_origid ≢ invalid_originator
      → proceed k s
        ≡ transfer k
            (record s { bus = start (record s.bus { is_first_shared = true; queue = rest }) item })
  unfolding proceed begin take_packet fifo_is_empty fifo_dequeue
  begin-takes s {item} {rest} progress queue core =
      let fresh = record s { bus = record s.bus { is_first_shared = true } } in
      queued_lem (fifo_is_empty s.bus.queue) s.bus.in_progress (idle k s) (transfer k s) (begin k s)
        (ap fifo_is_empty queue) progress
      ∙ ap (λ q. take_packet k fresh (fifo_dequeue q)) queue
      ∙ else_lem (item.bus_origid == invalid_originator) _ _ (ground arith)

  -- With no transaction under way, the oldest packet of the queue is the next.
  pub iter-begin :
      (s : Platform C M) {item : Packet} {rest : List Packet}
      → s.bus.in_progress ≡ false
      → s.bus.queue ≡ item ∷ rest
      → item.bus_origid ≢ invalid_originator
      → iter k s
        ≡ transfer k (record s {
          bus = start (record (release s.bus) { is_first_shared = true; queue = rest }) item;
        })
  unfolding iter
  iter-begin s progress queue core =
      begin-takes (record s { bus = release s.bus }) ((release-keeps s.bus).1 ∙ progress)
        ((release-keeps s.bus).0 ∙ queue) core

  -- With no transaction under way, a packet of no core is dropped.
  pub iter-drops :
      (s : Platform C M) {item : Packet} {rest : List Packet}
      → s.bus.in_progress ≡ false
      → s.bus.queue ≡ item ∷ rest
      → item.bus_origid ≡ invalid_originator
      → iter k s ≡ record s {
        bus = record (release s.bus) {
          is_first_shared = true;
          queue = rest;
          current_packet = item;
        };
      }
  unfolding iter proceed begin take_packet fifo_is_empty fifo_dequeue
  iter-drops s {item} {rest} progress queue none =
      let b = release s.bus in
      let released = record s { bus = b } in
      let fresh = record s { bus = record b { is_first_shared = true } } in
      let queued = (release-keeps s.bus).0 ∙ queue in
      queued_lem (fifo_is_empty b.queue) b.in_progress (idle k released) (transfer k released)
        (begin k released) (ap fifo_is_empty queued) ((release-keeps s.bus).1 ∙ progress)
      ∙ ap (λ q. take_packet k fresh (fifo_dequeue q)) queued
      ∙ then_lem (item.bus_origid == invalid_originator) _ _ (ground (arith, none))

  abbrev delivered : Platform C M → Packet → ℕ → Bool × C × ℕ → Platform C M
  delivered s p o r = record s {
    caches = update s.caches o r.1;
    bus = complete r.0 (record (print_bus_status s.bus p) { address_offset = r.2 });
  }

  -- A word that goes to a core, by what the core's cache makes of it.
  pub deliver-word :
      (s : Platform C M) (p : Packet) {i : ℕ} {done : Bool} {c : C} {offset : ℕ}
      → s.bus.current_packet.bus_origid ≡ i
      → k.response (s.caches i) p s.bus.address_offset ≡ (done, c, offset)
      → deliver k s p ≡ record s {
        caches = update s.caches i c;
        bus = complete done (record (print_bus_status s.bus p) { address_offset = offset });
      }
  unfolding deliver
  deliver-word s p {i} sender response =
      ap (λ (o : ℕ). delivered s p o (k.response (s.caches o) p s.bus.address_offset)) sender
      ∙ ap (λ (r : Bool × C × ℕ). delivered s p i r) response

  -- With nothing to do.
  pub iter-idle :
      (s : Platform C M)
      → s.bus.in_progress ≡ false
      → s.bus.queue ≡ []
      → iter k s ≡ idle k (record s { bus = release s.bus })
  unfolding iter proceed fifo_is_empty
  iter-idle s progress queue =
      let b = release s.bus in
      let released = record s { bus = b } in
      idle_lem (fifo_is_empty b.queue) b.in_progress (idle k released) (transfer k released)
        (begin k released) (ap fifo_is_empty ((release-keeps s.bus).0 ∙ queue))
        ((release-keeps s.bus).1 ∙ progress)

-- What was completed in the last iteration is released.
pub release-finally :
    (b : Bus) {i : ℕ}
    → i < number_of_cores
    → b.current_packet.bus_origid ≡ i
    → b.transaction_state i ≡ TransactionState.finally
    → (release b).transaction_state i ≡ TransactionState.idle
unfolding release
release-finally b core sender finally = ground (arith, sender, finally, core)
