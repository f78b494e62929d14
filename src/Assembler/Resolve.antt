-- ===== src/Assembler/Resolve.antt =====
-- Which jumps the last loop of asm.c resolves, and to what.
use multicore_proccessor.Common.{
  ℕ, zero, suc, ◌+◌, ◌≤◌, ◌<◌, ◌≡◌, ◌≢◌, refl, sym, ap, ◌∙◌, bit_or, Bool, true, false, [], ◌∷◌,
  arith, if◌then◌else◌, update, update_self, update_ne, ◌⊎◌, inl, inr,
}
use mathlib.Core.Path.{subst}
use multicore_proccessor.Text.Bytes.{Bytes}
use multicore_proccessor.Assembler.Result.{Result, ok, exit, ◌>>=◌, ok_eq}
use multicore_proccessor.Assembler.State.{Assembler, imem_size}
use multicore_proccessor.Assembler.Find.{IsFirst, IsMissing, le_cases, find_label_cases}
use multicore_proccessor.Assembler.Labels.{find_label, resolve, is_nil, fix_label, fix_labels}

-- What the loop makes of an instruction: a jump with a label gets the address of the first row that
-- holds the label.
abbrev pub IsResolved : Assembler → (ℕ → ℕ) → (ℕ → ℕ) → ℕ → Type 0
IsResolved s imem fixed pc =
    ((s.jumplabels pc ≡ []) × (fixed pc ≡ imem pc))
    ⊎ ((s.jumplabels pc ≢ [])
        × (j : ℕ) × IsFirst s.labels (s.jumplabels pc) 0 imem_size j
        × (fixed pc ≡ bit_or (imem pc) j))

-- A jump with a label that no row holds.
abbrev pub IsDangling : Assembler → ℕ → Type 0
IsDangling s pc = (s.jumplabels pc ≢ []) × IsMissing s.labels (s.jumplabels pc) 0 imem_size

nil_cases : (a : Bytes) → ((a ≡ []) × (is_nil a ≡ true)) ⊎ ((a ≢ []) × (is_nil a ≡ false))
nil_cases [] = inl (refl, refl)
nil_cases (c ∷ a) = inr (λ h. cc, refl)

fix_label-test :
    (s : Assembler) (pc : ℕ) (imem : ℕ → ℕ) {b : Bool}
    → is_nil (s.jumplabels pc) ≡ b
    → fix_label s pc imem
      ≡ (if b then ok imem else resolve imem pc (find_label imem_size 0 s.labels (s.jumplabels pc)))
unfolding fix_label
fix_label-test s pc imem h =
    ap
      (λ (b : Bool).
        if b then ok imem else resolve imem pc (find_label imem_size 0 s.labels (s.jumplabels pc)))
      h

fix_label_cases :
    (s : Assembler) (pc : ℕ) (imem : ℕ → ℕ)
    → ((fixed : ℕ → ℕ) × (fix_label s pc imem ≡ ok fixed)
        × IsResolved s imem fixed pc
        × ((i : ℕ) → i ≢ pc → fixed i ≡ imem i))
      ⊎ ((fix_label s pc imem ≡ exit) × IsDangling s pc)
unfolding resolve
fix_label_cases s pc imem = elim (nil_cases (s.jumplabels pc)) [
  | inl (e, h) ↦ inl (imem, fix_label-test s pc imem h, inl (e, refl), λ i d. refl)
  | inr (e, h) ↦ elim (find_label_cases imem_size 0 s.labels (s.jumplabels pc)) [
    | inl (j, found, first) ↦ inl (
      update imem pc (bit_or (imem pc) j),
      fix_label-test s pc imem h ∙ ap (resolve imem pc) found,
      inr (e, j, first, update_self imem pc _),
      λ i d. update_ne imem _ (λ e. d (sym e)),
    )
    | inr (found, missing) ↦
        inr (fix_label-test s pc imem h ∙ ap (resolve imem pc) found, (e, missing))
  ]
]

abbrev IsOutcome : ℕ → ℕ → Assembler → (ℕ → ℕ) → Result (ℕ → ℕ) → Type 0
IsOutcome n pc s imem result =
    ((fixed : ℕ → ℕ) × (result ≡ ok fixed)
      × ((i : ℕ) → pc ≤ i → i < pc + n → IsResolved s imem fixed i)
      × ((i : ℕ) → (i < pc) ⊎ (pc + n ≤ i) → fixed i ≡ imem i))
    ⊎ ((result ≡ exit) × (i : ℕ) × (pc ≤ i) × (i < pc + n) × IsDangling s i)

IsResolved-agree :
    (s : Assembler) (imem other fixed : ℕ → ℕ) (i : ℕ)
    → imem i ≡ other i
    → IsResolved s imem fixed i
    → IsResolved s other fixed i
IsResolved-agree s imem other fixed i e (inl (h, f)) = inl (h, f ∙ e)
IsResolved-agree s imem other fixed i e (inr (h, j, first, f)) =
    inr (h, j, first, f ∙ ap (λ (x : ℕ). bit_or x j) e)

IsResolved-done :
    (s : Assembler) (imem fixed done : ℕ → ℕ) (i : ℕ)
    → done i ≡ fixed i
    → IsResolved s imem fixed i
    → IsResolved s imem done i
IsResolved-done s imem fixed done i e (inl (h, f)) = inl (h, e ∙ f)
IsResolved-done s imem fixed done i e (inr (h, j, first, f)) = inr (h, j, first, e ∙ f)

outside : (n pc i : ℕ) → (i < pc) ⊎ (pc + suc n ≤ i) → ((i < pc + 1) ⊎ (pc + 1 + n ≤ i)) × (i ≢ pc)
outside n pc i (inl h) = (inl (omega (arith, h)), λ e. omega (arith, e, h))
outside n pc i (inr h) = (inr (omega (arith, h)), λ e. omega (arith, e, h))

fix_labels-step :
    (n pc : ℕ) (s : Assembler) (imem : ℕ → ℕ) {r : Result (ℕ → ℕ)}
    → fix_label s pc imem ≡ r
    → fix_labels (suc n) pc s imem ≡ (r >>= λ fixed. fix_labels n (pc + 1) s fixed)
unfolding fix_labels
fix_labels-step n pc s imem h =
    ap (λ (r : Result (ℕ → ℕ)). r >>= λ fixed. fix_labels n (pc + 1) s fixed) h

fix_labels-IsOutcome :
    (n pc : ℕ) (s : Assembler) (imem : ℕ → ℕ) → IsOutcome n pc s imem (fix_labels n pc s imem)
unfolding fix_labels
fix_labels-IsOutcome zero pc s imem =
    inl (imem, refl, λ i le lt. absurd (omega (arith, le, lt)), λ i d. refl)
fix_labels-IsOutcome (suc n) pc s imem = elim (fix_label_cases s pc imem) [
  | inr (stops, dangling) ↦
      inr (fix_labels-step n pc s imem stops, pc, omega arith, omega arith, dangling)
  | inl (fixed, goes, here, others) ↦ elim (fix_labels-IsOutcome n (pc + 1) s fixed) [
    | inr (stops, i, le, lt, dangling) ↦ inr (
      fix_labels-step n pc s imem goes ∙ stops,
      i,
      omega (arith, le),
      omega (arith, lt),
      dangling,
    )
    | inl (done, ends, resolved, kept) ↦ inl (
      done,
      fix_labels-step n pc s imem goes ∙ ends,
      λ i le lt. elim (le_cases pc i le) [
        | inl e ↦
            subst (IsResolved s imem done) e
              (IsResolved-done s imem fixed done pc (kept pc (inl (omega arith))) here)
        | inr l ↦
            IsResolved-agree s fixed imem done i (others i (λ e. omega (arith, e, l)))
              (resolved i l (omega (arith, lt)))
      ],
      λ i d. (let (out, differs) = outside n pc i d in kept i out ∙ others i differs),
    )
  ]
]

exit≢ok : (fixed : ℕ → ℕ) → exit ≢ ok fixed
exit≢ok fixed h = cc

-- The word of every jump with a label takes in the number of the first row that holds the label, and no
-- other word changes; or the label of some jump is held by no row, and the assembler stops.
pub fix_labels_cases :
    (s : Assembler)
    → ((fixed : ℕ → ℕ) × (fix_labels imem_size 0 s s.imem ≡ ok fixed)
        × ((pc : ℕ) → pc < imem_size → IsResolved s s.imem fixed pc)
        × ((pc : ℕ) → imem_size ≤ pc → fixed pc ≡ s.imem pc))
      ⊎ ((fix_labels imem_size 0 s s.imem ≡ exit) × (pc : ℕ) × (pc < imem_size) × IsDangling s pc)
fix_labels_cases s = elim (fix_labels-IsOutcome imem_size 0 s s.imem) [
  | inl (fixed, ends, resolved, kept) ↦
      inl (fixed, ends, λ pc lt. resolved pc (omega arith) lt, λ pc le. kept pc (inr le))
  | inr (stops, pc, le, lt, dangling) ↦ inr (stops, pc, lt, dangling)
]

pub fix_labels-IsResolved :
    (s : Assembler) {fixed : ℕ → ℕ}
    → fix_labels imem_size 0 s s.imem ≡ ok fixed
    → ((pc : ℕ) → pc < imem_size → IsResolved s s.imem fixed pc)
      × ((pc : ℕ) → imem_size ≤ pc → fixed pc ≡ s.imem pc)
fix_labels-IsResolved s {fixed = fixed} h = elim (fix_labels_cases s) [
  | inl (done, ends, resolved, kept) ↦
      subst
        (λ (f : ℕ → ℕ).
          ((pc : ℕ) → pc < imem_size → IsResolved s s.imem f pc)
          × ((pc : ℕ) → imem_size ≤ pc → f pc ≡ s.imem pc))
        (ok_eq done fixed (sym ends ∙ h)) (resolved, kept)
  | inr (stops, _, _, _) ↦ absurd (exit≢ok fixed (sym stops ∙ h))
]
