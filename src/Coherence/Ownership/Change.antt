-- ===== src/Coherence/Ownership/Change.antt =====
-- What a transaction of Interface/src/Bus.c makes of the owners of blocks, by what it does to lines.
use multicore_proccessor.Common.{
  ℕ, ◌≡◌, ◌≢◌, ◌⊎◌, inl, inr, sym, ap, ◌∙◌, Bool, true, false, ◌&&◌, arith, ◌==◌,
}
use multicore_proccessor.Cache.Address.{index_of, tag_of}
use multicore_proccessor.Cache.State.{Mesi, Tsram, CacheData, line, holds, is_valid}
use multicore_proccessor.Coherence.Snooping.{SingleOwner}

-- A line that is as it was; in the place of the block, one of a cache without the block.
abbrev pub IsKept : (before after : ℕ → CacheData) → ℕ → ℕ → ℕ → Type 0
IsKept before after a j f =
    ((after j).tsram f ≡ (before j).tsram f) × (f ≡ index_of a → holds (before j) a ≡ false)

-- A line that has the block now.
abbrev pub IsGiven : (ℕ → CacheData) → ℕ → ℕ → ℕ → Type 0
IsGiven after a j f = (f ≡ index_of a) × (((after j).tsram f).tag ≡ tag_of a)

-- What a transaction for the block of the address `a` has made of the caches.
pub record Change (before after : ℕ → CacheData) (a : ℕ) (given : ℕ → Type 0) : Type 0 where
  pub lines : (j f : ℕ) → IsKept before after a j f ⊎ (IsGiven after a j f × given j)
  pub together :
      (j k : ℕ)
      → j ≢ k
      → given j
      → given k
      → holds (after j) a ≡ true
      → holds (after k) a ≡ true
      → ((line (after j) a).mesi ≡ Mesi.shared) × ((line (after k) a).mesi ≡ Mesi.shared)

-- A line holds an address.
abbrev line_holds : Tsram → ℕ → Bool
line_holds t x = t.tag == tag_of x && is_valid t.mesi

pub holds_tag : (t : Tsram) (x : ℕ) → line_holds t x ≡ true → t.tag ≡ tag_of x
holds_tag t x h = ground arith

holds_block :
    (t : Tsram) (a x : ℕ) → t.tag ≡ tag_of a → line_holds t x ≡ true → line_holds t a ≡ true
holds_block t a x e h = ground arith

holds_same :
    (t : Tsram) (a x : ℕ) → tag_of x ≡ tag_of a → line_holds t x ≡ true → line_holds t a ≡ true
holds_same t a x e h = ground arith

pub true≢false : true ≢ false
true≢false h = cc

module _ {before after : ℕ → CacheData} {a : ℕ} {given : ℕ → Type 0}
    (change : Change before after a given) where
  -- A cache that was given the block, and one that was not, do not share an address in its place.
  given-kept :
      (x j k : ℕ)
      → IsGiven after a j (index_of x)
      → IsKept before after a k (index_of x)
      → holds (after j) x ≡ true
      → holds (after k) x ≢ true
  given-kept x j k (place, tag) (same, absent) hj hk =
      let block : tag_of x ≡ tag_of a = sym (holds_tag ((after j).tsram (index_of x)) x hj) ∙ tag in
      let old : line_holds ((before k).tsram (index_of x)) a ≡ true =
        holds_same ((before k).tsram (index_of x)) a x block
          (ap (λ (t : Tsram). line_holds t x) (sym same) ∙ hk) in
      true≢false
        (sym (ap (λ (f : ℕ). line_holds ((before k).tsram f) a) (sym place) ∙ old) ∙ absent place)

  given_holds :
      (x j : ℕ)
      → IsGiven after a j (index_of x)
      → holds (after j) x ≡ true
      → holds (after j) a ≡ true
  given_holds x j (place, tag) h =
      ap (λ (f : ℕ). line_holds ((after j).tsram f) a) (sym place)
      ∙ holds_block ((after j).tsram (index_of x)) a x tag h

  pub Change-SingleOwner : ((x : ℕ) → SingleOwner before x) → (x : ℕ) → SingleOwner after x
  Change-SingleOwner single x j k ne hj hk = elim (change.lines j (index_of x)) [
    | inl kept_j ↦ elim (change.lines k (index_of x)) [
      | inl kept_k ↦
          let (j_shared, k_shared) =
            single x j k ne (ap (λ (t : Tsram). line_holds t x) (sym kept_j.0) ∙ hj)
              (ap (λ (t : Tsram). line_holds t x) (sym kept_k.0) ∙ hk) in
          (
            ap (λ (t : Tsram). t.mesi) kept_j.0 ∙ j_shared,
            ap (λ (t : Tsram). t.mesi) kept_k.0 ∙ k_shared,
          )
      | inr (given_k, _) ↦ absurd (given-kept x k j given_k kept_j hk hj)
    ]
    | inr (given_j, g_j) ↦ elim (change.lines k (index_of x)) [
      | inl kept_k ↦ absurd (given-kept x j k given_j kept_k hj hk)
      | inr (given_k, g_k) ↦
          let (j_shared, k_shared) =
            change.together j k ne g_j g_k (given_holds x j given_j hj)
              (given_holds x k given_k hk) in
          (
            ap (λ (f : ℕ). ((after j).tsram f).mesi) given_j.0 ∙ j_shared,
            ap (λ (f : ℕ). ((after k).tsram f).mesi) given_k.0 ∙ k_shared,
          )
    ]
  ]
