-- ===== src/Coherence/Fetch/Miss.antt =====
-- A read or a write that misses, through Core/src/Cache.c, Interface/src/Bus.c and
-- Interface/src/MainMemory.c, up to its repetition.
use multicore_proccessor.Common.{
  ℕ, ◌<◌, ◌≡◌, sym, ap, ◌∙◌, Bool, true, false, none, some, List, [], ◌∷◌, ◌++◌, arith, update,
  update_self, update_ne,
}
use mathlib.Core.Path.{subst}
use native.Mathlib.Decide.{ℕ_discrete}
use multicore_proccessor.Bus.Packet.{Packet, Command, request, number_of_cores}
use multicore_proccessor.Bus.State.{Bus, TransactionState, add_transaction}
use multicore_proccessor.Memory.{masked}
use multicore_proccessor.Cache.Address.{slot}
use multicore_proccessor.Cache.State.{CacheData, Shared, line, holds, is_modified}
use multicore_proccessor.Cache.Access.{read_data, write_data, busy}
use multicore_proccessor.Cache.ReadWrite.{read_data-outcome, read_data-write_data}
use multicore_proccessor.Coherence.Fetch.Answers.{IsFetch, Aside}
use multicore_proccessor.Coherence.Fetch.Progress.{Hardware}
use multicore_proccessor.Coherence.Fetch.Whole.{iterations, Requested}
use multicore_proccessor.Coherence.Fetch.Served.{
  Served, iterations-Served, busy-idle, outcome_lem, absent_lem, Served-read, Served-write,
  shared_by,
}

pub read_data-miss :
    (c : CacheData) (s : Shared) (a : ℕ)
    → busy s.bus c.id ≡ false
    → holds c a ≡ false
    → is_modified (line c a).mesi ≡ false
    → (read_data c s a).2.bus ≡ add_transaction s.bus (request c.id Command.bus_rd a 0)
unfolding read_data
read_data-miss c s a free absent clean = ground arith

pub write_data-miss :
    (c : CacheData) (s : Shared) (a w : ℕ)
    → busy s.bus c.id ≡ false
    → holds c a ≡ false
    → is_modified (line c a).mesi ≡ false
    → ((write_data c s a w).2.bus ≡ add_transaction s.bus (request c.id Command.bus_rd_x a 0))
      × ((write_data c s a w).1.id ≡ c.id)
      × ((write_data c s a w).0 ≡ false)
unfolding write_data
write_data-miss c s a w free absent clean = ground arith

pub add_transaction-keeps :
    (b : Bus) (p : Packet)
    → ((add_transaction b p).queue ≡ b.queue ++ p ∷ [])
      × ((add_transaction b p).in_progress ≡ b.in_progress)
unfolding add_transaction
add_transaction-keeps b p = ground arith

-- Bus and memory are idle, and no cache has the block of the address or a modified line in its place.
pub record Uncached (i a : ℕ) (s : Hardware) : Type 0 where
  pub core : i < number_of_cores
  pub idle : s.bus.in_progress ≡ false
  pub empty : s.bus.queue ≡ []
  pub free : s.bus.transaction_state i ≡ TransactionState.idle
  pub closed : s.memory.transaction ≡ false
  pub numbered : (j : ℕ) → (s.caches j).id ≡ j
  pub absent : (j : ℕ) → holds (s.caches j) a ≡ false
  pub clean : (j : ℕ) → is_modified (line (s.caches j) a).mesi ≡ false

-- The platform after the core `i` has called its cache.
abbrev pub after_access : ℕ → Hardware → CacheData → Bus → Hardware
after_access i s c b = record s { caches = update s.caches i c; bus = b }

Uncached-Requested :
    {i a : ℕ} (cmd : Command) (s : Hardware) (c : CacheData) (b : Bus)
    → Uncached i a s
    → IsFetch cmd
    → c.id ≡ i
    → b ≡ add_transaction s.bus (request i cmd a 0)
    → Requested i cmd a [] (after_access i s c b)
Uncached-Requested {i} {a} cmd s c b h fetch id e =
    let q = request i cmd a 0 in
    record {
      fetch = fetch;
      core = h.core;
      idle = ap (λ (b : Bus). b.in_progress) e ∙ (add_transaction-keeps s.bus q).1 ∙ h.idle;
      queued =
          ap (λ (b : Bus). b.queue) e
          ∙ (add_transaction-keeps s.bus q).0
          ∙ ap (λ (l : List Packet). l ++ q ∷ []) h.empty;
      closed = h.closed;
      uninvolved = λ j. elim (ℕ_discrete j i) [
        | yes same ↦ record {
          id =
              subst (λ (x : ℕ). (update s.caches i c x).id ≡ x) (sym same)
                (ap (λ (d : CacheData). d.id) (update_self s.caches i c) ∙ id);
          absent = λ ne. absurd (ne same);
          clean = λ ne. absurd (ne same);
        }
        | no other ↦
            subst (λ (d : CacheData). Aside i a j d)
              (sym (update_ne s.caches c (λ e. other (sym e))))
              (record { id = h.numbered j; absent = λ _. h.absent j; clean = λ _. h.clean j })
      ];
    }

module _ {i a : ℕ} (s : Hardware) (read_flag write_flag : Bool) (h : Uncached i a s) where
  free : busy s.bus (s.caches i).id ≡ false
  free = ap (busy s.bus) (h.numbered i) ∙ busy-idle s.bus i h.free

  -- Where the bus and the memory are idle, no request is pending, the caches are numbered by their
  -- cores, and none holds the address or has a modified line in its place: a core's read of the
  -- address brings nothing; repeated after 25 iterations of the bus, with no other call of a cache in
  -- between, it brings the word that the main memory has there.
  pub read_miss-completes :
      let (missed, c, after) = read_data (s.caches i) (shared_by s read_flag write_flag) a in
      let t = iterations 25 (after_access i s c after.bus) in
      (missed ≡ none)
      × ((read_data
            (t.caches i)
            (shared_by t after.read_miss_occurred after.write_miss_occurred)
            a).0
          ≡ some (s.memory.words (masked a)))
  read_miss-completes =
      let (missed, c, after) = read_data (s.caches i) (shared_by s read_flag write_flag) a in
      let e =
        read_data-miss (s.caches i) (shared_by s read_flag write_flag) a free (h.absent i)
          (h.clean i) in
      let o = read_data-outcome (s.caches i) (shared_by s read_flag write_flag) a in
      let t = iterations 25 (after_access i s c after.bus) in
      let served : Served i a s.memory.words t = iterations-Served (after_access i s c after.bus) (
        Uncached-Requested Command.bus_rd s c after.bus h IsFetch.read (o.3 ∙ h.numbered i) (
          e
          ∙ ap (λ (x : ℕ). add_transaction s.bus (request x Command.bus_rd a 0)) (h.numbered i))) in
      (
        outcome_lem (busy s.bus (s.caches i).id) (holds (s.caches i) a)
              ((s.caches i).dsram (slot a)) o.0 free
            ∙ absent_lem (holds (s.caches i) a) ((s.caches i).dsram (slot a)) (h.absent i),
        Served-read t after.read_miss_occurred after.write_miss_occurred served,
      )

  -- Where the bus and the memory are idle, no request is pending, the caches are numbered by their
  -- cores, and none holds the address or has a modified line in its place: a core's write to the
  -- address is not done; repeated after 25 iterations of the bus, with no other call of a cache in
  -- between, it is done, and a read then brings the word that was written.
  pub write_miss-completes :
      (w : ℕ)
      → let (written, c, after) = write_data (s.caches i) (shared_by s read_flag write_flag) a w in
        let t = iterations 25 (after_access i s c after.bus) in
        let (again, d, last) =
          write_data
            (t.caches i)
            (shared_by t after.read_miss_occurred after.write_miss_occurred)
            a
            w in
        (written ≡ false) × (again ≡ true) × ((read_data d last a).0 ≡ some w)
  write_miss-completes w =
      let (written, c, after) = write_data (s.caches i) (shared_by s read_flag write_flag) a w in
      let e =
        write_data-miss (s.caches i) (shared_by s read_flag write_flag) a w free (h.absent i)
          (h.clean i) in
      let t = iterations 25 (after_access i s c after.bus) in
      let served : Served i a s.memory.words t = iterations-Served (after_access i s c after.bus) (
        Uncached-Requested Command.bus_rd_x s c after.bus h IsFetch.own (e.1 ∙ h.numbered i) (
          e.0
          ∙ ap (λ (x : ℕ). add_transaction s.bus (request x Command.bus_rd_x a 0))
              (h.numbered i))) in
      let done = Served-write t w after.read_miss_occurred after.write_miss_occurred served in
      (
        e.2,
        done,
        (read_data-write_data (t.caches i)
            (shared_by t after.read_miss_occurred after.write_miss_occurred) a w a done).0,
      )
