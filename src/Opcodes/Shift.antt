-- ===== src/Opcodes/Shift.antt =====
-- `ArithmeticShiftRight` of Core/src/Opcodes.c on the numbers that the words stand for.
use multicore_proccessor.Common.{
  ℕ, suc, ◌+◌, ◌-◌, ◌*◌, ◌/◌, ◌^◌, ◌≤◌, ◌<◌, ◌≡◌, sym, ◌⊎◌, inl, inr, some, none, arith,
}
use mathlib.Core.Path.{subst}
use native.Mathlib.Decide.{dec_lt}
use native.Mathlib.Nat.{suc-mul, one-le-pow, div-mul-le_self, lt-div-mul-add, div-le_self}
use multicore_proccessor.Opcodes.{Params, arithmetic_shift_right, shift_signed}

-- The word `r` stands for the quotient of the number of `n` by `2 ^ k`, rounded down; a word from
-- `2 ^ 31` on stands for a negative number.
abbrev pub IsFloor : ℕ → ℕ → ℕ → Type 0
IsFloor n k r =
    ((n < 2 ^ 31) × (r < 2 ^ 31) × (r * 2 ^ k ≤ n) × (n < r * 2 ^ k + 2 ^ k))
    ⊎ ((2 ^ 31 ≤ n)
        × (2 ^ 31 ≤ r)
        × (r < 2 ^ 32)
        × (2 ^ 32 - n ≤ (2 ^ 32 - r) * 2 ^ k)
        × ((2 ^ 32 - r) * 2 ^ k < 2 ^ 32 - n + 2 ^ k))

shift_signed-negative :
    (n k : ℕ)
    → 2 ^ 31 ≤ n
    → n < 2 ^ 32
    → let c = 2 ^ 32 - 1 - n in
      let r = 2 ^ 32 - 1 - c / 2 ^ k in (2 ^ 31 ≤ r) × (r < 2 ^ 32) × (2 ^ 32 - r ≡ suc (c / 2 ^ k))
shift_signed-negative n k ge lt =
    let le = div-le_self (2 ^ 32 - 1 - n) (2 ^ k) in
    (omega (arith, le), omega (arith, le), omega (arith, le))

quotient-bounds : (c P : ℕ) → 0 < P → (c < suc (c / P) * P) × (suc (c / P) * P ≤ c + P)
quotient-bounds c P pos =
    let e = suc-mul (c / P) P in
    (omega (arith, e, lt-div-mul-add {a = c} pos), omega (arith, e, div-mul-le_self c P))

shift_signed-IsFloor : (n k : ℕ) → n < 2 ^ 32 → IsFloor n k (shift_signed n k)
shift_signed-IsFloor n k lt = elim (dec_lt n (2 ^ 31)) as (λ _. IsFloor n k (shift_signed n k)) [
  | yes below ↦
      let e : shift_signed n k ≡ n / 2 ^ k = ground arith in
      subst (IsFloor n k) (sym e) (
        inl (
          below,
          omega (arith, div-le_self n (2 ^ k)),
          div-mul-le_self n (2 ^ k),
          lt-div-mul-add {a = n} (one-le-pow k 2 (omega arith)),
        ))
  | no other ↦
      let c = 2 ^ 32 - 1 - n in
      let e : shift_signed n k ≡ 2 ^ 32 - 1 - c / 2 ^ k = ground arith in
      let (ge, lt', q) = shift_signed-negative n k (omega arith) lt in
      let (upper, lower) = quotient-bounds c (2 ^ k) (one-le-pow k 2 (omega arith)) in
      subst (IsFloor n k) (sym e) (
        inr (
          omega arith,
          ge,
          lt',
          subst (λ (x : ℕ). 2 ^ 32 - n ≤ x * 2 ^ k) (sym q) (omega (arith, upper)),
          subst (λ (x : ℕ). x * 2 ^ k < 2 ^ 32 - n + 2 ^ k) (sym q) (omega (arith, lower)),
        ))
]

-- SRA divides the signed number of `rs` by `2 ^ rt`, rounding down, and writes nothing but `rd`; it has
-- a result for a shift below 32 only. The operand `rs` is taken to be a 32-bit word.
pub arithmetic_shift_right-IsFloor :
    (p : Params)
    → p.rs < 2 ^ 32
    → ((p.rt < 32)
        × (r : ℕ) × (arithmetic_shift_right p ≡ some (record p { rd = r }))
        × IsFloor p.rs p.rt r)
      ⊎ ((32 ≤ p.rt) × (arithmetic_shift_right p ≡ none))
unfolding arithmetic_shift_right
arithmetic_shift_right-IsFloor p lt = elim (dec_lt p.rt 32) [
  | yes small ↦ inl (small, shift_signed p.rs p.rt, ground arith, shift_signed-IsFloor p.rs p.rt lt)
  | no big ↦ inr (omega arith, ground arith)
]
