-- ===== src/Common/Words.antt =====
-- Machine words as native numbers: casts cut by `%`, shifts are `*` and `/` by a power of two.
use Prim.Native.Nat.{ℕ, zero, suc, ◌+◌, ◌*◌, ◌/◌, ◌%◌, ◌^◌, ◌≤◌, ◌<◌}
use Prim.Native.Nat.{bit_and, bit_or, bit_xor, digits, differ, min, max}
use Prim.Native.Nat.{bit_and-bitwise, bit_or-bitwise, bit_xor-bitwise}
use native.Mathlib.Nat.{pow-suc, le_refl}
use mathlib.Core.Path.{◌≡◌, refl, ap}
use native.Mathlib.Omega.{arith}

abbrev pub IsWord : ℕ → Type 0
IsWord n = n < 2 ^ 32

abbrev pub IsWordArray : (ℕ → ℕ) → Type 0
IsWordArray f = (i : ℕ) → IsWord (f i)

abbrev pub u8 : ℕ → ℕ
u8 n = n % 2 ^ 8

abbrev pub u16 : ℕ → ℕ
u16 n = n % 2 ^ 16

abbrev pub u32 : ℕ → ℕ
u32 n = n % 2 ^ 32

-- The `width` bits of `n` from bit `lsb` on, as a C bit-field reads them.
abbrev pub bits : ℕ → ℕ → ℕ → ℕ
bits n lsb width = n / 2 ^ lsb % 2 ^ width

-- UINT16_MAX
abbrev pub uint16_max : ℕ
uint16_max = 0xffff

-- An operation on binary digits stays within the width of its arguments.
digits-lt :
    (z : ℕ → ℕ) (f : ℕ → ℕ → ℕ)
    → ((b : ℕ) → z b ≤ b)
    → ((a b : ℕ) → a < 2 → b < 2 → f a b < 2)
    → (k n a b : ℕ) → a < 2 ^ k
    → b < 2 ^ k
    → digits z f n a b < 2 ^ k
digits-lt z f hz hf k zero a b ha hb = omega (arith, hz b)
digits-lt z f hz hf k (suc n) zero b ha hb = omega (arith, hz b)
digits-lt z f hz hf zero (suc n) (suc a) b ha hb = absurd (omega arith)
digits-lt z f hz hf (suc k) (suc n) (suc a) b ha hb = omega (
  arith,
  pow-suc 2 k,
  hf (suc a % 2) (b % 2) (omega arith) (omega arith),
  digits-lt z f hz hf k n (suc a / 2) (b / 2) (omega (arith, pow-suc 2 k))
      (omega (arith, pow-suc 2 k)),
)

pub bit_and-lt : (k a b : ℕ) → a < 2 ^ k → b < 2 ^ k → bit_and a b < 2 ^ k
bit_and-lt k a b p q =
    rw bit_and-bitwise
      (digits-lt (λ _. 0) min (λ b. omega arith) (λ a b p q. omega arith) k a a b p q)

pub bit_or-lt : (k a b : ℕ) → a < 2 ^ k → b < 2 ^ k → bit_or a b < 2 ^ k
bit_or-lt k a b p q =
    rw bit_or-bitwise
      (digits-lt (λ b. b) max (λ b. omega arith) (λ a b p q. omega arith) k a a b p q)

differ-lt : (a b : ℕ) → a < 2 → b < 2 → differ a b < 2
differ-lt zero b p q = q
differ-lt (suc zero) zero p q = p
differ-lt (suc zero) (suc b) p q = omega arith
differ-lt (suc (suc a)) b p q = absurd (omega arith)

pub bit_xor-lt : (k a b : ℕ) → a < 2 ^ k → b < 2 ^ k → bit_xor a b < 2 ^ k
bit_xor-lt k a b p q =
    rw bit_xor-bitwise (digits-lt (λ b. b) differ (λ b. omega arith) differ-lt k a a b p q)

digits-or-zero : (n a : ℕ) → a ≤ n → digits (λ b. b) max n a 0 ≡ a
digits-or-zero zero zero h = refl
digits-or-zero zero (suc a) h = absurd (omega arith)
digits-or-zero (suc n) zero h = refl
digits-or-zero (suc n) (suc a) h = omega (arith, digits-or-zero n (suc a / 2) (omega arith))

digits-or_fields :
    (k q r n a : ℕ) → a ≡ q * 2 ^ k → r < 2 ^ k → a ≤ n → digits (λ b. b) max n a r ≡ a + r
digits-or_fields zero q zero n a e h le = rw (digits-or-zero n a le) (omega arith)
digits-or_fields zero q (suc r) n a e h le = absurd (omega arith)
digits-or_fields (suc k) q r zero zero e h le = omega arith
digits-or_fields (suc k) q r zero (suc a) e h le = absurd (omega arith)
digits-or_fields (suc k) q r (suc n) zero e h le = omega arith
digits-or_fields (suc k) q r (suc n) (suc a) e h le =
    let double : suc a ≡ 2 * (q * 2 ^ k) = omega (arith, e, ap (λ (t : ℕ). q * t) (pow-suc 2 k)) in
    omega (
      arith,
      digits-or_fields k q (r / 2) n (suc a / 2) (omega arith) (omega (arith, pow-suc 2 k))
          (omega arith),
    )

-- `|` of a number of whole `2 ^ k` and one below `2 ^ k` is their sum.
pub bit_or_fields : (k q r : ℕ) → r < 2 ^ k → bit_or (q * 2 ^ k) r ≡ q * 2 ^ k + r
bit_or_fields k q r h =
    rw bit_or-bitwise (digits-or_fields k q r (q * 2 ^ k) (q * 2 ^ k) refl h (le_refl _))
