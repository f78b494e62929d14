-- ===== src/Coherence/Ownership/Supplied.antt =====
-- Single ownership after a block has come from its owner.
use multicore_proccessor.Common.{ℕ, ◌≡◌, ◌≢◌, ◌⊎◌, inl, inr, sym, ap, ◌∙◌, true, false, List, arith}
use mathlib.Core.Path.{subst}
use native.Mathlib.Decide.{ℕ_discrete}
use multicore_proccessor.Bus.Packet.{Packet, Command}
use multicore_proccessor.Cache.Address.{index_of}
use multicore_proccessor.Cache.State.{Mesi, CacheData, line, holds, set_mesi}
use multicore_proccessor.Coherence.Snooping.{SingleOwner}
use multicore_proccessor.Coherence.Fetch.Answers.{IsFetch, read, own, word_addr, word_addr_lem}
use multicore_proccessor.Coherence.Fetch.Progress.{Hardware}
use multicore_proccessor.Coherence.Fetch.Whole.{iterations}
use multicore_proccessor.Coherence.Supply.Answers.{given_up}
use multicore_proccessor.Coherence.Supply.Whole.{OwnedRequest, iterations-Supplied}
use multicore_proccessor.Coherence.Ownership.Change.{
  IsKept, IsGiven, holds_tag, true≢false, Change-SingleOwner,
}

-- The owner's line after the supply.
given_line :
    (c : CacheData) (a g : ℕ) (m : Mesi)
    → g ≢ index_of a
    → (set_mesi c (word_addr a 7) m).tsram g ≡ c.tsram g
given_line c a g m ne = ground (arith, word_addr_lem a 7)

given_tag :
    (c : CacheData) (a : ℕ) (m : Mesi)
    → (line (set_mesi c (word_addr a 7) m) a).tag ≡ (line c a).tag
given_tag c a m = ground (arith, word_addr_lem a 7)

given_mesi : (c : CacheData) (a : ℕ) (m : Mesi) → (line (set_mesi c (word_addr a 7) m) a).mesi ≡ m
given_mesi c a m = ground (arith, word_addr_lem a 7)

-- A line that is shared, or does not hold the block.
abbrev IsShared : CacheData → ℕ → Type 0
IsShared c a = ((line c a).mesi ≡ Mesi.shared) ⊎ (holds c a ≡ false)

given_up-IsShared :
    {cmd : Command} (c : CacheData) (a : ℕ)
    → IsFetch cmd
    → (line c a).mesi ≡ given_up cmd
    → IsShared c a
given_up-IsShared c a read h = inl h
given_up-IsShared c a own h = inr (ground (arith, h))

IsShared-holds :
    (c : CacheData) (a : ℕ) → IsShared c a → holds c a ≡ true → (line c a).mesi ≡ Mesi.shared
IsShared-holds c a (inl shared) h = shared
IsShared-holds c a (inr absent) h = absurd (true≢false (sym h ∙ absent))

module _ {i o : ℕ} {cmd : Command} {a : ℕ} {queue : List Packet} (s : Hardware)
    (h : OwnedRequest i o cmd a queue s) where
  after : ℕ → CacheData
  after = (iterations 9 s).caches

  -- What has become of a line of a cache.
  abbrev IsChanged : ℕ → ℕ → Type 0
  IsChanged j g = IsKept s.caches after a j g ⊎ (IsGiven after a j g × IsShared (after j) a)

  requester-IsChanged : (g : ℕ) → IsChanged i g
  unfolding after
  requester-IsChanged g =
      let f = iterations-Supplied s h in
      elim (ℕ_discrete g (index_of a)) [
        | no elsewhere ↦ inl (f.filled.other_lines g elsewhere, λ e. absurd (elsewhere e))
        | yes place ↦ inr (
          (place, ap (λ (y : ℕ). ((after i).tsram y).tag) place ∙ f.filled.tag (omega arith)),
          inl f.shared,
        )
      ]

  owner-IsChanged : (g : ℕ) → IsChanged o g
  unfolding after
  owner-IsChanged g =
      let f = iterations-Supplied s h in
      let c = s.caches o in
      elim (ℕ_discrete g (index_of a)) [
        | no elsewhere ↦ inl (
          ap (λ (d : CacheData). d.tsram g) f.given ∙ given_line c a g (given_up cmd) elsewhere,
          λ e. absurd (elsewhere e),
        )
        | yes place ↦ inr (
          (
            place,
            ap (λ (y : ℕ). ((after o).tsram y).tag) place
                ∙ ap (λ (d : CacheData). (line d a).tag) f.given
                ∙ given_tag c a (given_up cmd)
                ∙ holds_tag (line c a) a h.owned.held,
          ),
          given_up-IsShared (after o) a h.fetch
              (ap (λ (d : CacheData). (line d a).mesi) f.given ∙ given_mesi c a (given_up cmd)),
        )
      ]

  each-IsChanged : (j g : ℕ) → IsChanged j g
  unfolding after
  each-IsChanged j g = elim (ℕ_discrete j i) [
    | yes same ↦ subst (λ (x : ℕ). IsChanged x g) (sym same) (requester-IsChanged g)
    | no other ↦ elim (ℕ_discrete j o) [
      | yes owns ↦ subst (λ (x : ℕ). IsChanged x g) (sym owns) (owner-IsChanged g)
      | no third ↦ inl (
        ap (λ (c : CacheData). c.tsram g) ((iterations-Supplied s h).others j other third),
        λ _. h.owned.absent j third,
      )
    ]
  ]

  -- Where each address had a single owner, or shared copies only, this is still so after the 9
  -- iterations that serve a request for a block of another owner, in whose place the requester's
  -- line is invalid.
  pub OwnedRequest-SingleOwner :
      ((x : ℕ) → SingleOwner s.caches x) → (x : ℕ) → SingleOwner (iterations 9 s).caches x
  unfolding after
  OwnedRequest-SingleOwner =
      Change-SingleOwner {before = s.caches} {after = after} {given = λ j. IsShared (after j) a}
        (record {
          lines = each-IsChanged;
          together = λ j k ne g_j g_k hj hk.
              (IsShared-holds (after j) a g_j hj, IsShared-holds (after k) a g_k hk);
        })
