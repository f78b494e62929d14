-- ===== src/Coherence/Fetch/Served.antt =====
-- A cache of Core/src/Cache.c once Interface/src/Bus.c has brought it a block: its next call is served.
use multicore_proccessor.Common.{
  ℕ, ◌%◌, ◌≡◌, sym, ap, ◌∙◌, Bool, true, false, Option, none, some, inl, [], arith, if◌then◌else◌,
}
use mathlib.Core.Path.{subst}
use multicore_proccessor.Bus.Packet.{Command}
use multicore_proccessor.Bus.State.{Bus, TransactionState}
use multicore_proccessor.Bus.Iteration.{idle}
use multicore_proccessor.Bus.Iteration.Quiet.{iter-idle, release-finally}
use multicore_proccessor.Memory.{masked}
use multicore_proccessor.Cache.Address.{tag_of, slot}
use multicore_proccessor.Cache.State.{Mesi, Shared, line, holds}
use multicore_proccessor.Cache.Access.{read_data, write_data, busy}
use multicore_proccessor.Cache.ReadWrite.{read_data-outcome, write_data-ownership}
use multicore_proccessor.Processor.{callbacks}
use multicore_proccessor.Coherence.Fetch.Progress.{Hardware, Fetched}
use multicore_proccessor.Coherence.Fetch.Whole.{iterations, Requested, iterations-Fetched}

-- The bus and a cache after a fetch and one more iteration.
pub record Served (i a : ℕ) (words : ℕ → ℕ) (s : Hardware) : Type 0 where
  pub free : s.bus.transaction_state i ≡ TransactionState.idle
  pub filled : (s.caches i).dsram (slot a) ≡ words (masked a)
  pub id : (s.caches i).id ≡ i
  pub tag : (line (s.caches i) a).tag ≡ tag_of a
  pub exclusive : (line (s.caches i) a).mesi ≡ Mesi.exclusive

pub iterations-Served :
    {i : ℕ} {cmd : Command} {a : ℕ} (s : Hardware)
    → Requested i cmd a [] s
    → Served i a s.memory.words (iterations 25 s)
unfolding idle iterations
iterations-Served {i} {cmd} {a} s h =
    let t = iterations 24 s in
    let f : Fetched i cmd a s.caches s.memory.words [] t = iterations-Fetched s h in
    subst (Served i a s.memory.words) (sym (iter-idle callbacks t f.idle f.steady.queued)) (record {
      free = release-finally t.bus h.core f.sender f.finally;
      filled =
          ap (t.caches i).dsram (omega arith)
          ∙ f.filled.block (a % 8) (omega arith)
          ∙ ap (λ (x : ℕ). s.memory.words (masked x)) (omega arith);
      id = f.filled.id;
      tag = f.filled.tag (omega arith);
      exclusive = f.exclusive;
    })

pub busy-idle : (b : Bus) (i : ℕ) → b.transaction_state i ≡ TransactionState.idle → busy b i ≡ false
unfolding busy
busy-idle b i h = ground arith

Served-busy :
    {i a : ℕ} {words : ℕ → ℕ} (s : Hardware)
    → Served i a words s
    → busy s.bus (s.caches i).id ≡ false
Served-busy s h = ap (busy s.bus) h.id ∙ busy-idle s.bus _ h.free

Served-holds :
    {i a : ℕ} {words : ℕ → ℕ} (s : Hardware) → Served i a words s → holds (s.caches i) a ≡ true
Served-holds s h = ground (arith, h.tag, h.exclusive)

pub outcome_lem :
    (busy held : Bool) (w : ℕ) {out : Option ℕ}
    → out ≡ (if busy then none else if held then some w else none)
    → busy ≡ false
    → out ≡ (if held then some w else none)
outcome_lem busy held w e h = ground arith

-- The bus, and the flags of the caches' functions.
abbrev pub shared_by : Hardware → Bool → Bool → Shared
shared_by s read_flag write_flag = record {
  bus = s.bus;
  read_miss_occurred = read_flag;
  write_miss_occurred = write_flag;
}

pub absent_lem : (held : Bool) (w : ℕ) → held ≡ false → (if held then some w else none) ≡ none
absent_lem held w h = ground arith

pub Served-read :
    {i a : ℕ} {words : ℕ → ℕ} (s : Hardware) (read_flag write_flag : Bool)
    → Served i a words s
    → (read_data (s.caches i) (shared_by s read_flag write_flag) a).0 ≡ some (words (masked a))
Served-read {i} {a} {words} s read_flag write_flag h =
    let now = shared_by s read_flag write_flag in
    let e =
      outcome_lem (busy s.bus (s.caches i).id) (holds (s.caches i) a) ((s.caches i).dsram (slot a))
        (read_data-outcome (s.caches i) now a).0 (Served-busy s h) in
    ground (arith, e, Served-holds s h, h.filled)

pub Served-write :
    {i a : ℕ} {words : ℕ → ℕ} (s : Hardware) (w : ℕ) (read_flag write_flag : Bool)
    → Served i a words s
    → (write_data (s.caches i) (shared_by s read_flag write_flag) a w).0 ≡ true
Served-write {i} {a} s w read_flag write_flag h =
    let now = shared_by s read_flag write_flag in
    (write_data-ownership (s.caches i) now a w).0.1
      (Served-busy s h, Served-holds s h, inl h.exclusive)
