-- ===== src/Assembler/Find.antt =====
-- The row of `labels` that asm.c finds for a name.
use multicore_proccessor.Common.{
  ℕ, zero, suc, ◌+◌, ◌≤◌, ◌<◌, ◌≡◌, ◌≢◌, refl, sym, ap, ◌∙◌, true, false, none, some, arith,
  Bool-cases, ◌⊎◌, inl, inr,
}
use multicore_proccessor.Text.Bytes.{Bytes, equal, equal_iff}
use multicore_proccessor.Assembler.Labels.{find_label}

-- The first row from `i` on, before `end`, that holds the name.
abbrev pub IsFirst : (ℕ → Bytes) → Bytes → ℕ → ℕ → ℕ → Type 0
IsFirst labels name i end j =
    (i ≤ j) × (j < end) × (labels j ≡ name) × ((k : ℕ) → i ≤ k → k < j → labels k ≢ name)

abbrev pub IsMissing : (ℕ → Bytes) → Bytes → ℕ → ℕ → Type 0
IsMissing labels name i end = (k : ℕ) → i ≤ k → k < end → labels k ≢ name

pub le_cases : (i k : ℕ) → i ≤ k → (i ≡ k) ⊎ (i + 1 ≤ k)
le_cases i k h = ground arith

equal_refl : (a : Bytes) → equal a a ≡ true
equal_refl a = (equal_iff a a).1 refl

pub true≢false : true ≢ false
true≢false h = cc

-- The test of one row.
equal_cases : (a b : Bytes) → ((equal a b ≡ true) × (b ≡ a)) ⊎ ((equal a b ≡ false) × (b ≢ a))
equal_cases a b = elim (Bool-cases (equal a b)) [
  | inl h ↦ inl (h, sym ((equal_iff a b).0 h))
  | inr h ↦ inr (h, λ e. absurd (true≢false (sym (equal_refl a) ∙ ap (equal a) (sym e) ∙ h)))
]

not_at_or_above :
    (labels : ℕ → Bytes) (name : Bytes) (i end : ℕ)
    → labels i ≢ name
    → IsMissing labels name (i + 1) end
    → IsMissing labels name i end
not_at_or_above labels name i end here above k le lt = elim (le_cases i k le) [
  | inl e ↦ λ h. here (ap labels e ∙ h)
  | inr l ↦ above k l lt
]

pub find_label_cases :
    (n i : ℕ) (labels : ℕ → Bytes) (name : Bytes)
    → ((j : ℕ) × (find_label n i labels name ≡ some j) × IsFirst labels name i (i + n) j)
      ⊎ ((find_label n i labels name ≡ none) × IsMissing labels name i (i + n))
unfolding find_label
find_label_cases zero i labels name = inr (refl, λ k le lt. absurd (omega (arith, le, lt)))
find_label_cases (suc n) i labels name = elim (equal_cases name (labels i)) [
  | inl (h, e) ↦
      inl
        (i, ground arith, (omega arith, omega arith, e, λ k le lt. absurd (omega (arith, le, lt))))
  | inr (h, differs) ↦ elim (find_label_cases n (i + 1) labels name) [
    | inl (j, found, (le, lt, e, first)) ↦ inl (
      j,
      ground arith,
      (omega arith, omega arith, e, not_at_or_above labels name i j differs first),
    )
    | inr (none_found, missing) ↦ inr (
      ground arith,
      not_at_or_above labels name i (i + suc n) differs
          (λ k le lt. missing k le (omega (arith, lt))),
    )
  ]
]
