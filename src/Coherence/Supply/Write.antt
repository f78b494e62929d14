-- ===== src/Coherence/Supply/Write.antt =====
-- A write to a block that another core owns, through Core/src/Cache.c, Interface/src/Bus.c and
-- Interface/src/MainMemory.c, up to the repetition that is done.
use multicore_proccessor.Common.{
  ℕ, ◌≡◌, ◌≢◌, sym, ap, ◌∙◌, Bool, true, false, some, [], update, update_self, update_ne,
}
use mathlib.Core.Path.{subst}
use native.Mathlib.Decide.{ℕ_discrete}
use multicore_proccessor.Bus.Packet.{Command, request}
use multicore_proccessor.Bus.State.{add_transaction}
use multicore_proccessor.Cache.Address.{index_of}
use multicore_proccessor.Cache.State.{CacheData, line, is_modified}
use multicore_proccessor.Cache.Access.{read_data, write_data, busy}
use multicore_proccessor.Cache.ReadWrite.{write_data-ownership, read_data-write_data}
use multicore_proccessor.Coherence.Fetch.Answers.{own}
use multicore_proccessor.Coherence.Fetch.Progress.{Hardware}
use multicore_proccessor.Coherence.Fetch.Whole.{iterations}
use multicore_proccessor.Coherence.Fetch.Served.{Served, busy-idle, Served-write, shared_by}
use multicore_proccessor.Coherence.Fetch.Miss.{write_data-miss, after_access}
use multicore_proccessor.Coherence.Supply.Whole.{OwnedRequest}
use multicore_proccessor.Coherence.Supply.Read.{Elsewhere, Elsewhere-asked}
use multicore_proccessor.Coherence.Supply.Upgrade.{
  Alone, iterations-Alone, no_request, write_data-upgrade, Alone-Requested, iterations-Upgraded,
}

module _ {i o a : ℕ} (s : Hardware) (read_flag write_flag : Bool) (h : Elsewhere i o a s)
    (clean : (j : ℕ) → j ≢ o → is_modified (line (s.caches j) a).mesi ≡ false) (w : ℕ) where
  asked_own :
      let (written, c, after) = write_data (s.caches i) (shared_by s read_flag write_flag) a w in
      OwnedRequest i o Command.bus_rd_x a [] (after_access i s c after.bus) × (written ≡ false)
  asked_own =
      let now = shared_by s read_flag write_flag in
      let (written, c, after) = write_data (s.caches i) now a w in
      let (e, id, fails) =
        write_data-miss (s.caches i) now a w
          (ap (busy s.bus) (h.owned.ids i) ∙ busy-idle s.bus i h.free)
          (h.owned.absent i (λ e. h.owned.ne (sym e))) (ap is_modified h.owned.invalid) in
      (
        Elsewhere-asked s c after.bus h own (id ∙ h.owned.ids i)
            ((write_data-ownership (s.caches i) now a w).2 fails).1
            (e
              ∙ ap (λ (x : ℕ). add_transaction s.bus (request x Command.bus_rd_x a 0))
                  (h.owned.ids i)),
        fails,
      )

  still_clean :
      (c : CacheData)
      → c.tsram ≡ (s.caches i).tsram
      → (j : ℕ) → j ≢ o
      → is_modified (line (update s.caches i c j) a).mesi ≡ false
  still_clean c lines j ne = elim (ℕ_discrete i j) [
    | yes same ↦
        subst (λ (x : ℕ). is_modified (line (update s.caches i c x) a).mesi ≡ false) same
          (ap (λ (d : CacheData). is_modified (line d a).mesi) (update_self s.caches i c)
            ∙ ap (λ f. is_modified (f (index_of a)).mesi) lines
            ∙ ap is_modified h.owned.invalid)
    | no other ↦
        ap (λ (d : CacheData). is_modified (line d a).mesi) (update_ne s.caches c other)
        ∙ clean j ne
  ]

  -- Where the bus and the memory are idle, no request is pending, the caches are numbered by their
  -- cores, the core `o` alone holds the address, modified, the line in its place in the cache of the
  -- core `i` is invalid, and no other cache has a modified line in that place: a write of the address
  -- by the core `i` is not done, and not when it is repeated after 10 iterations of the bus either,
  -- since the block came as shared; repeated after 25 more it is done, and a read then brings the
  -- word. No cache is called in between.
  pub write_owned-completes :
      let (first, c, after) = write_data (s.caches i) (shared_by s read_flag write_flag) a w in
      let t = iterations 10 (after_access i s c after.bus) in
      let seen = shared_by t after.read_miss_occurred after.write_miss_occurred in
      let (second, d, later) = write_data (t.caches i) seen a w in
      let u = iterations 25 (after_access i t d later.bus) in
      let last = shared_by u later.read_miss_occurred later.write_miss_occurred in
      let (third, e, finally) = write_data (u.caches i) last a w in
      (first ≡ false) × (second ≡ false) × (third ≡ true) × ((read_data e finally a).0 ≡ some w)
  write_owned-completes =
      let now = shared_by s read_flag write_flag in
      let (_, c, after) = write_data (s.caches i) now a w in
      let t = iterations 10 (after_access i s c after.bus) in
      let lines = ((write_data-ownership (s.caches i) now a w).2 asked_own.1).1 in
      let alone : Alone i a t =
        iterations-Alone (after_access i s c after.bus) asked_own.0 (still_clean c lines) in
      let seen = shared_by t after.read_miss_occurred after.write_miss_occurred in
      let (_, d, later) = write_data (t.caches i) seen a w in
      let (e, id, fails) =
        write_data-upgrade (t.caches i) seen a w
          (ap (busy t.bus) alone.mine ∙ busy-idle t.bus i alone.free) alone.held alone.shared in
      let u = iterations 25 (after_access i t d later.bus) in
      let served : Served i a t.memory.words u =
        iterations-Upgraded (after_access i t d later.bus) (
          Alone-Requested t d later.bus alone (id ∙ alone.mine) (
            e
            ∙ ap
                (λ (x : ℕ).
                  add_transaction (add_transaction t.bus (request x Command.bus_rd_x a 0))
                    no_request)
                alone.mine)) in
      let done = Served-write u w later.read_miss_occurred later.write_miss_occurred served in
      (
        asked_own.1,
        fails,
        done,
        (read_data-write_data (u.caches i)
            (shared_by u later.read_miss_occurred later.write_miss_occurred) a w a done).0,
      )
