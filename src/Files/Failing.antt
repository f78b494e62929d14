-- ===== src/Files/Failing.antt =====
-- The test for files that are NULL, over the 27 arguments.
use multicore_proccessor.Common.{
  ℕ, zero, suc, ◌+◌, ◌-◌, ◌≤◌, ◌<◌, ◌≡◌, ◌↔◌, ◌⊎◌, inl, inr, refl, ap, ◌∙◌, Bool, false, ◌||◌,
  arith,
}

module _ (null : ℕ → Bool) where
  unfoldable pub core_failed : ℕ → Bool
  core_failed i =
      null (16 + i)
      || null (20 + i)
      || null (1 + i)
      || null (7 + i)
      || null (11 + i)
      || null (24 + i)

  unfoldable pub all_failed : Bool
  unfolding core_failed
  all_failed =
      (core_failed 0 || (core_failed 1 || (core_failed 2 || (core_failed 3 || false))))
      || null 5
      || null 6
      || null 15

  core_failed_iff :
      (i : ℕ)
      → (core_failed i ≡ false) ↔ (
          (null (1 + i) ≡ false)
          × (null (7 + i) ≡ false)
          × (null (11 + i) ≡ false)
          × (null (16 + i) ≡ false)
          × (null (20 + i) ≡ false)
          × (null (24 + i) ≡ false))
  unfolding core_failed
  core_failed_iff i = ground arith

  -- The four files that begin at an argument, one for each core.
  abbrev FourOpen : ℕ → Type 0
  FourOpen a = (i : ℕ) → i < 4 → null (a + i) ≡ false

  among : (a k : ℕ) → FourOpen a → a ≤ k → k < a + 4 → null k ≡ false
  among a k h le lt = ap null (omega (arith, le, lt)) ∙ h (k - a) (omega (arith, le, lt))

  single : (a k : ℕ) → null a ≡ false → k ≡ a → null k ≡ false
  single a k h e = ap null e ∙ h

  each_argument :
      FourOpen 1
      → FourOpen 7
      → FourOpen 11
      → FourOpen 16
      → FourOpen 20
      → FourOpen 24
      → null 5 ≡ false
      → null 6 ≡ false
      → null 15 ≡ false
      → (k : ℕ) → 1 ≤ k
      → k < 28
      → null k ≡ false
  each_argument h1 h7 h11 h16 h20 h24 e5 e6 e15 k le lt = ground (
    arith,
    among 1 k h1,
    among 7 k h7,
    among 11 k h11,
    among 16 k h16,
    among 20 k h20,
    among 24 k h24,
    single 5 k e5,
    single 6 k e6,
    single 15 k e15,
  )

  core_at :
      (i : ℕ)
      → i < 4
      → (core_failed i ≡ core_failed 0)
        ⊎ (core_failed i ≡ core_failed 1)
        ⊎ (core_failed i ≡ core_failed 2)
        ⊎ (core_failed i ≡ core_failed 3)
  core_at zero lt = inl refl
  core_at (suc zero) lt = inr (inl refl)
  core_at (suc (suc zero)) lt = inr (inr (inl refl))
  core_at (suc (suc (suc zero))) lt = inr (inr (inr refl))
  core_at (suc (suc (suc (suc i)))) lt = absurd (omega arith)

  cores_failed_iff :
      (b5 b6 b15 : Bool)
      → (((core_failed 0 || (core_failed 1 || (core_failed 2 || (core_failed 3 || false))))
            || b5
            || b6
            || b15)
          ≡ false)
        ↔ (((i : ℕ) → i < 4 → core_failed i ≡ false) × (b5 ≡ false) × (b6 ≡ false) × (b15 ≡ false))
  cores_failed_iff b5 b6 b15 = (
    λ h. (λ i lt. ground (arith, core_at i lt), ground arith, ground arith, ground arith),
    λ h.
        ground (
          arith,
          h.0 0 (omega arith),
          h.0 1 (omega arith),
          h.0 2 (omega arith),
          h.0 3 (omega arith),
        ),
  )

  pub all_failed_iff : (all_failed ≡ false) ↔ ((k : ℕ) → 1 ≤ k → k < 28 → null k ≡ false)
  unfolding all_failed
  all_failed_iff = (
    λ h.
        let (cores, e5, e6, e15) = (cores_failed_iff (null 5) (null 6) (null 15)).0 h in
        each_argument (λ i lt. ((core_failed_iff i).0 (cores i lt)).0)
          (λ i lt. ((core_failed_iff i).0 (cores i lt)).1)
          (λ i lt. ((core_failed_iff i).0 (cores i lt)).2)
          (λ i lt. ((core_failed_iff i).0 (cores i lt)).3)
          (λ i lt. ((core_failed_iff i).0 (cores i lt)).4)
          (λ i lt. ((core_failed_iff i).0 (cores i lt)).5) e5 e6 e15,
    λ h. (cores_failed_iff (null 5) (null 6) (null 15)).1 (
      λ i lt. (core_failed_iff i).1 (
        h (1 + i) (omega arith) (omega arith),
        h (7 + i) (omega arith) (omega arith),
        h (11 + i) (omega arith) (omega arith),
        h (16 + i) (omega arith) (omega arith),
        h (20 + i) (omega arith) (omega arith),
        h (24 + i) (omega arith) (omega arith),
      ),
      h 5 (omega arith) (omega arith),
      h 6 (omega arith) (omega arith),
      h 15 (omega arith) (omega arith),
    ),
  )
