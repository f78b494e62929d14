-- ===== src/Coherence/Supply/Read.antt =====
-- A read of a word that another core has written, through Core/src/Cache.c, Interface/src/Bus.c and
-- Interface/src/MainMemory.c, up to its repetition.
use multicore_proccessor.Common.{
  ℕ, ◌%◌, ◌≡◌, sym, ap, ◌∙◌, Bool, false, none, some, List, [], ◌∷◌, ◌++◌, arith, update,
  update_self, update_ne,
}
use mathlib.Core.Path.{subst}
use native.Mathlib.Decide.{ℕ_discrete}
use multicore_proccessor.Bus.Packet.{Packet, Command, request}
use multicore_proccessor.Bus.State.{Bus, TransactionState, add_transaction}
use multicore_proccessor.Bus.Iteration.{idle}
use multicore_proccessor.Bus.Iteration.Quiet.{iter-idle, release-finally}
use multicore_proccessor.Memory.{masked}
use multicore_proccessor.Cache.Address.{index_of, tag_of, slot}
use multicore_proccessor.Cache.State.{Mesi, CacheData, line, holds, is_modified}
use multicore_proccessor.Cache.Access.{read_data, busy}
use multicore_proccessor.Cache.ReadWrite.{read_data-outcome}
use multicore_proccessor.Processor.{callbacks}
use multicore_proccessor.Coherence.Fetch.Answers.{IsFetch, read, word_addr}
use multicore_proccessor.Coherence.Fetch.Progress.{Hardware}
use multicore_proccessor.Coherence.Fetch.Whole.{iterations}
use multicore_proccessor.Coherence.Fetch.Served.{busy-idle, outcome_lem, absent_lem, shared_by}
use multicore_proccessor.Coherence.Fetch.Miss.{read_data-miss, add_transaction-keeps, after_access}
use multicore_proccessor.Coherence.Supply.Progress.{Owned, supplied, supplied-at, Supplied}
use multicore_proccessor.Coherence.Supply.Steps.{invalid_absent}
use multicore_proccessor.Coherence.Supply.Whole.{OwnedRequest, iterations-Supplied}

-- Bus and memory are idle, and the core `o` owns the block of the address.
pub record Elsewhere (i o a : ℕ) (s : Hardware) : Type 0 where
  pub owned : Owned i o a s.caches
  pub idle : s.bus.in_progress ≡ false
  pub empty : s.bus.queue ≡ []
  pub free : s.bus.transaction_state i ≡ TransactionState.idle
  pub closed : s.memory.transaction ≡ false

Owned-update :
    {i o a : ℕ} (caches : ℕ → CacheData) (c : CacheData)
    → Owned i o a caches
    → c.id ≡ i
    → c.tsram ≡ (caches i).tsram
    → Owned i o a (update caches i c)
Owned-update {i} {o} {a} caches c h id lines =
    let owner : update caches i c o ≡ caches o = update_ne caches c (λ e. h.ne (sym e)) in
    let mine : update caches i c i ≡ c = update_self caches i c in
    let invalid : (line c a).mesi ≡ Mesi.invalid =
      ap (λ f. (f (index_of a)).mesi) lines ∙ h.invalid in
    record {
      requester = h.requester;
      owner = h.owner;
      ne = h.ne;
      ids = λ j. elim (ℕ_discrete i j) [
        | yes same ↦
            subst (λ (x : ℕ). (update caches i c x).id ≡ x) same
              (ap (λ (d : CacheData). d.id) mine ∙ id)
        | no other ↦ ap (λ (d : CacheData). d.id) (update_ne caches c other) ∙ h.ids j
      ];
      held = ap (λ (d : CacheData). holds d a) owner ∙ h.held;
      owned = ap (λ (d : CacheData). (line d a).mesi) owner ∙ h.owned;
      absent = λ j ne. elim (ℕ_discrete i j) [
        | yes same ↦
            subst (λ (x : ℕ). holds (update caches i c x) a ≡ false) same
              (ap (λ (d : CacheData). holds d a) mine ∙ invalid_absent c a invalid)
        | no other ↦ ap (λ (d : CacheData). holds d a) (update_ne caches c other) ∙ h.absent j ne
      ];
      invalid = ap (λ (d : CacheData). (line d a).mesi) mine ∙ invalid;
    }

-- What a call of the requester's cache makes of the hardware, where it asks for the block.
pub Elsewhere-asked :
    {i o a : ℕ} {cmd : Command} (s : Hardware) (c : CacheData) (b : Bus)
    → Elsewhere i o a s
    → IsFetch cmd
    → c.id ≡ i
    → c.tsram ≡ (s.caches i).tsram
    → b ≡ add_transaction s.bus (request i cmd a 0)
    → OwnedRequest i o cmd a [] (after_access i s c b)
Elsewhere-asked {i} {o} {a} {cmd} s c b h fetch id lines e =
    let q = request i cmd a 0 in
    record {
      fetch = fetch;
      owned = Owned-update s.caches c h.owned id lines;
      idle = ap (λ (x : Bus). x.in_progress) e ∙ (add_transaction-keeps s.bus q).1 ∙ h.idle;
      queued =
          ap (λ (x : Bus). x.queue) e
          ∙ (add_transaction-keeps s.bus q).0
          ∙ ap (λ (l : List Packet). l ++ q ∷ []) h.empty;
      closed = h.closed;
    }

-- The requester's cache, the memory and the bus after the supply and one more iteration.
record Supplies (i a w : ℕ) (s : Hardware) : Type 0 where
  free : s.bus.transaction_state i ≡ TransactionState.idle
  word : (s.caches i).dsram (slot a) ≡ w
  memory : s.memory.words (masked a) ≡ w
  id : (s.caches i).id ≡ i
  tag : (line (s.caches i) a).tag ≡ tag_of a
  shared : (line (s.caches i) a).mesi ≡ Mesi.shared

iterations-Supplies :
    {i o a : ℕ} {cmd : Command} (s : Hardware)
    → OwnedRequest i o cmd a [] s
    → Supplies i a ((s.caches o).dsram (slot a)) (iterations 10 s)
unfolding idle iterations
iterations-Supplies {i} {o} {a} {cmd} s h =
    let t = iterations 9 s in
    let f : Supplied i o cmd a s.caches s.memory.words [] t = iterations-Supplied s h in
    let owners : supplied i o cmd a s.caches s.memory.words [] 8 (masked (word_addr a (a % 8)))
        ≡ (s.caches o).dsram (slot a) =
      sym (supplied-at i o cmd a s.caches s.memory.words [] (a % 8) (omega arith))
      ∙ ap (s.caches o).dsram (omega arith) in
    subst (Supplies i a ((s.caches o).dsram (slot a))) (sym (iter-idle callbacks t f.idle f.queued))
      (record {
        free = release-finally t.bus h.owned.requester f.sender f.finally;
        word = ap (t.caches i).dsram (omega arith) ∙ f.filled.block (a % 8) (omega arith) ∙ owners;
        memory =
            f.contents (masked a)
            ∙ ap (supplied i o cmd a s.caches s.memory.words [] 8) (omega arith)
            ∙ owners;
        id = f.filled.id;
        tag = f.filled.tag (omega arith);
        shared = f.shared;
      })

Supplies-read :
    {i a w : ℕ} (s : Hardware) (read_flag write_flag : Bool)
    → Supplies i a w s
    → (read_data (s.caches i) (shared_by s read_flag write_flag) a).0 ≡ some w
Supplies-read {i} {a} {w} s read_flag write_flag h =
    let now = shared_by s read_flag write_flag in
    let e =
      outcome_lem (busy s.bus (s.caches i).id) (holds (s.caches i) a) ((s.caches i).dsram (slot a))
        (read_data-outcome (s.caches i) now a).0
        (ap (busy s.bus) h.id ∙ busy-idle s.bus _ h.free) in
    ground (arith, e, h.tag, h.shared, h.word)

module _ {i o a : ℕ} (s : Hardware) (read_flag write_flag : Bool) (h : Elsewhere i o a s) where
  free : busy s.bus (s.caches i).id ≡ false
  free = ap (busy s.bus) (h.owned.ids i) ∙ busy-idle s.bus i h.free

  asked :
      let (missed, c, after) = read_data (s.caches i) (shared_by s read_flag write_flag) a in
      OwnedRequest i o Command.bus_rd a [] (after_access i s c after.bus)
  asked =
      let (missed, c, after) = read_data (s.caches i) (shared_by s read_flag write_flag) a in
      let (_, _, lines, id) = read_data-outcome (s.caches i) (shared_by s read_flag write_flag) a in
      Elsewhere-asked s c after.bus h read (id ∙ h.owned.ids i) lines (
        read_data-miss (s.caches i) (shared_by s read_flag write_flag) a free
          (h.owned.absent i (λ e. h.owned.ne (sym e))) (ap is_modified h.owned.invalid)
        ∙ ap (λ (x : ℕ). add_transaction s.bus (request x Command.bus_rd a 0)) (h.owned.ids i))

  -- Where the bus and the memory are idle, no request is pending, the caches are numbered by their
  -- cores, the core `o` alone holds the address, modified, and the line in its place in the cache of
  -- the core `i` is invalid: a read of the address by the core `i` brings nothing; repeated after 10
  -- iterations of the bus, with no other call of a cache in between, it brings the word that the core
  -- `o` has there, and the main memory has this word too.
  pub read_owned-completes :
      let (missed, c, after) = read_data (s.caches i) (shared_by s read_flag write_flag) a in
      let t = iterations 10 (after_access i s c after.bus) in
      (missed ≡ none)
      × ((read_data
            (t.caches i)
            (shared_by t after.read_miss_occurred after.write_miss_occurred)
            a).0
          ≡ some ((s.caches o).dsram (slot a)))
      × (t.memory.words (masked a) ≡ (s.caches o).dsram (slot a))
  read_owned-completes =
      let (missed, c, after) = read_data (s.caches i) (shared_by s read_flag write_flag) a in
      let outcome = read_data-outcome (s.caches i) (shared_by s read_flag write_flag) a in
      let absent = h.owned.absent i (λ e. h.owned.ne (sym e)) in
      let t = iterations 10 (after_access i s c after.bus) in
      let supplies : Supplies i a ((s.caches o).dsram (slot a)) t =
        subst (λ (d : CacheData). Supplies i a (d.dsram (slot a)) t)
          (update_ne s.caches c (λ e. h.owned.ne (sym e)))
          (iterations-Supplies (after_access i s c after.bus) asked) in
      (
        outcome_lem (busy s.bus (s.caches i).id) (holds (s.caches i) a)
              ((s.caches i).dsram (slot a)) outcome.0 free
            ∙ absent_lem (holds (s.caches i) a) ((s.caches i).dsram (slot a)) absent,
        Supplies-read t after.read_miss_occurred after.write_miss_occurred supplies,
        supplies.memory,
      )
