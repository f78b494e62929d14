-- ===== src/Coherence/Ownership/Fetched.antt =====
-- Single ownership after a block has come from the memory.
use multicore_proccessor.Common.{ℕ, ◌≡◌, inl, inr, sym, ap, ◌∙◌, List, arith}
use mathlib.Core.Path.{subst}
use native.Mathlib.Decide.{ℕ_discrete}
use multicore_proccessor.Bus.Packet.{Packet, Command}
use multicore_proccessor.Cache.Address.{index_of}
use multicore_proccessor.Cache.State.{CacheData, line}
use multicore_proccessor.Coherence.Snooping.{SingleOwner}
use multicore_proccessor.Coherence.Fetch.Progress.{Hardware, Fetched}
use multicore_proccessor.Coherence.Fetch.Whole.{iterations, Requested, iterations-Fetched}
use multicore_proccessor.Coherence.Ownership.Change.{Change, Change-SingleOwner}

module _ {i : ℕ} {cmd : Command} {a : ℕ} {queue : List Packet} (s : Hardware) where
  Fetched-Change :
      Requested i cmd a queue s → Change s.caches (iterations 24 s).caches a (λ j. j ≡ i)
  Fetched-Change h =
      let t = iterations 24 s in
      let f : Fetched i cmd a s.caches s.memory.words queue t = iterations-Fetched s h in
      record {
        lines = λ j g. elim (ℕ_discrete j i) [
          | no other ↦ inl (
            ap (λ (c : CacheData). c.tsram g) (f.steady.others j other),
            λ _. (h.uninvolved j).absent other,
          )
          | yes same ↦ elim (ℕ_discrete g (index_of a)) [
            | no elsewhere ↦ inl (
              subst (λ (x : ℕ). (t.caches x).tsram g ≡ (s.caches x).tsram g) (sym same)
                  (f.filled.other_lines g elsewhere),
              λ e. absurd (elsewhere e),
            )
            | yes place ↦ inr (
              (
                place,
                ap (λ (y : ℕ). ((t.caches j).tsram y).tag) place
                    ∙ ap (λ (x : ℕ). (line (t.caches x) a).tag) same
                    ∙ f.filled.tag (omega arith),
              ),
              same,
            )
          ]
        ];
        together = λ j k ne g_j g_k _ _. absurd (ne (g_j ∙ sym g_k));
      }

  -- Where each address had a single owner, or shared copies only, this is still so after the 24
  -- iterations that serve a request in which no other cache is involved.
  pub Requested-SingleOwner :
      Requested i cmd a queue s
      → ((x : ℕ) → SingleOwner s.caches x)
      → (x : ℕ) → SingleOwner (iterations 24 s).caches x
  Requested-SingleOwner h = Change-SingleOwner (Fetched-Change h)
