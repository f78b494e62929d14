-- ===== src/Coherence/Supply/Upgrade.antt =====
-- A block that its owner has supplied to a request to write it, which comes as shared, and the request of
-- its ownership, through Core/src/Cache.c and Interface/src/Bus.c.
use multicore_proccessor.Common.{
  ℕ, ◌%◌, ◌<◌, ◌≡◌, ◌≢◌, sym, ap, ◌∙◌, refl, true, false, List, [], ◌∷◌, ◌++◌, arith, update,
  update_self, update_ne,
}
use mathlib.Core.Path.{subst}
use native.Mathlib.Decide.{ℕ_discrete}
use multicore_proccessor.Bus.Packet.{Packet, Command, request, number_of_cores, invalid_originator}
use multicore_proccessor.Bus.State.{Bus, TransactionState, add_transaction}
use multicore_proccessor.Bus.Iteration.{idle}
use multicore_proccessor.Bus.Iteration.Quiet.{iter-idle, iter-drops, release-finally, release-keeps}
use multicore_proccessor.Memory.{masked}
use multicore_proccessor.Cache.Address.{tag_of}
use multicore_proccessor.Cache.State.{
  Mesi, CacheData, Shared, line, holds, is_modified, is_shared, set_mesi,
}
use multicore_proccessor.Cache.Access.{write_data, busy}
use multicore_proccessor.Processor.{callbacks}
use multicore_proccessor.Coherence.Fetch.Answers.{own, word_addr, word_addr_lem, Aside}
use multicore_proccessor.Coherence.Fetch.Progress.{Hardware, Fetched}
use multicore_proccessor.Coherence.Fetch.Whole.{iterations, Requested, iterations-Fetched}
use multicore_proccessor.Coherence.Fetch.Served.{Served}
use multicore_proccessor.Coherence.Fetch.Miss.{add_transaction-keeps, after_access}
use multicore_proccessor.Coherence.Supply.Progress.{Supplied}
use multicore_proccessor.Coherence.Supply.Whole.{OwnedRequest, iterations-Supplied}

-- The core `i` alone holds the address, in a shared line, and all is idle.
pub record Alone (i a : ℕ) (s : Hardware) : Type 0 where
  pub core : i < number_of_cores
  pub idle : s.bus.in_progress ≡ false
  pub empty : s.bus.queue ≡ []
  pub free : s.bus.transaction_state i ≡ TransactionState.idle
  pub closed : s.memory.transaction ≡ false
  pub held : holds (s.caches i) a ≡ true
  pub shared : (line (s.caches i) a).mesi ≡ Mesi.shared
  pub mine : (s.caches i).id ≡ i
  pub uninvolved : (j : ℕ) → j ≢ i → Aside i a j (s.caches j)

given_away :
    (c : CacheData) (a : ℕ) → (line (set_mesi c (word_addr a 7) Mesi.invalid) a).mesi ≡ Mesi.invalid
given_away c a = ground (arith, word_addr_lem a 7)

Aside-invalid :
    {i a j : ℕ} (c : CacheData) → c.id ≡ j → (line c a).mesi ≡ Mesi.invalid → Aside i a j c
Aside-invalid c id h = record {
  id = id;
  absent = λ _. ground (arith, h);
  clean = λ _. ap is_modified h;
}

held_lem :
    (c : CacheData) (a : ℕ)
    → (line c a).tag ≡ tag_of a
    → (line c a).mesi ≡ Mesi.shared
    → holds c a ≡ true
held_lem c a t m = ground (arith, t, m)

pub iterations-Alone :
    {i o a : ℕ} (s : Hardware)
    → OwnedRequest i o Command.bus_rd_x a [] s
    → ((j : ℕ) → j ≢ o → is_modified (line (s.caches j) a).mesi ≡ false)
    → Alone i a (iterations 10 s)
unfolding idle iterations
iterations-Alone {i} {o} {a} s h clean =
    let t = iterations 9 s in
    let f : Supplied i o Command.bus_rd_x a s.caches s.memory.words [] t =
      iterations-Supplied s h in
    subst (Alone i a) (sym (iter-idle callbacks t f.idle f.queued)) (record {
      core = h.owned.requester;
      idle = (release-keeps t.bus).1 ∙ f.idle;
      empty = (release-keeps t.bus).0 ∙ f.queued;
      free = release-finally t.bus h.owned.requester f.sender f.finally;
      closed = f.closed;
      held = held_lem (t.caches i) a (f.filled.tag (omega arith)) f.shared;
      shared = f.shared;
      mine = f.filled.id;
      uninvolved = λ j ne. elim (ℕ_discrete j o) [
        | yes same ↦
            subst (λ (x : ℕ). Aside i a x (t.caches x)) (sym same)
              (Aside-invalid (t.caches o) (ap (λ (c : CacheData). c.id) f.given ∙ h.owned.ids o)
                (ap (λ (c : CacheData). (line c a).mesi) f.given ∙ given_away (s.caches o) a))
        | no third ↦
            subst (λ (c : CacheData). Aside i a j c) (sym (f.others j ne third))
              (record {
                id = h.owned.ids j;
                absent = λ _. h.owned.absent j third;
                clean = λ _. clean j third;
              })
      ];
    })

abbrev pub no_request : Packet
no_request = request invalid_originator Command.no_command 0 0

-- A write to a shared line asks for its ownership.
pub write_data-upgrade :
    (c : CacheData) (s : Shared) (a w : ℕ)
    → busy s.bus c.id ≡ false
    → holds c a ≡ true
    → (line c a).mesi ≡ Mesi.shared
    → ((write_data c s a w).2.bus
        ≡ add_transaction (add_transaction s.bus (request c.id Command.bus_rd_x a 0)) no_request)
      × ((write_data c s a w).1.id ≡ c.id)
      × ((write_data c s a w).0 ≡ false)
unfolding write_data
write_data-upgrade c s a w free held shared = ground (arith, free, held, ap is_shared shared)

pub Alone-Requested :
    {i a : ℕ} (s : Hardware) (c : CacheData) (b : Bus)
    → Alone i a s
    → c.id ≡ i
    → b ≡ add_transaction (add_transaction s.bus (request i Command.bus_rd_x a 0)) no_request
    → Requested i Command.bus_rd_x a (no_request ∷ []) (after_access i s c b)
Alone-Requested {i} {a} s c b h id e =
    let q = request i Command.bus_rd_x a 0 in
    let one = add_transaction-keeps s.bus q in
    let two = add_transaction-keeps (add_transaction s.bus q) no_request in
    record {
      fetch = own;
      core = h.core;
      idle = ap (λ (x : Bus). x.in_progress) e ∙ two.1 ∙ one.1 ∙ h.idle;
      queued =
          ap (λ (x : Bus). x.queue) e
          ∙ two.0
          ∙ ap (λ (l : List Packet). l ++ no_request ∷ [])
              (one.0 ∙ ap (λ (l : List Packet). l ++ q ∷ []) h.empty);
      closed = h.closed;
      uninvolved = λ j. elim (ℕ_discrete j i) [
        | yes same ↦ record {
          id =
              subst (λ (x : ℕ). (update s.caches i c x).id ≡ x) (sym same)
                (ap (λ (d : CacheData). d.id) (update_self s.caches i c) ∙ id);
          absent = λ ne. absurd (ne same);
          clean = λ ne. absurd (ne same);
        }
        | no other ↦
            subst (λ (d : CacheData). Aside i a j d)
              (sym (update_ne s.caches c (λ e. other (sym e)))) (h.uninvolved j other)
      ];
    }

-- The packet of no core behind the request is dropped in one more iteration.
pub iterations-Upgraded :
    {i a : ℕ} (s : Hardware)
    → Requested i Command.bus_rd_x a (no_request ∷ []) s
    → Served i a s.memory.words (iterations 25 s)
unfolding iterations
iterations-Upgraded {i} {a} s h =
    let t = iterations 24 s in
    let f : Fetched i Command.bus_rd_x a s.caches s.memory.words (no_request ∷ []) t =
      iterations-Fetched s h in
    subst (Served i a s.memory.words) (sym (iter-drops callbacks t f.idle f.steady.queued refl))
      (record {
        free = release-finally t.bus h.core f.sender f.finally;
        filled =
            ap (t.caches i).dsram (omega arith)
            ∙ f.filled.block (a % 8) (omega arith)
            ∙ ap (λ (x : ℕ). s.memory.words (masked x)) (omega arith);
        id = f.filled.id;
        tag = f.filled.tag (omega arith);
        exclusive = f.exclusive;
      })
