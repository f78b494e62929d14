-- ===== src/Assembler/Result.antt =====
-- What a part of the assembler in asm.c comes to: a value, an `exit(1)`, or what C leaves undefined (an
-- array that is written past its end, a variable that is read before it is set, a number that is out of
-- range).
use multicore_proccessor.Common.{Bool, true, false, ◌≡◌, refl}

pub data Result {ℓ} (A : Type ℓ) : Type ℓ where
  undefined : Result A
  exit : Result A
  ok : A → Result A

-- Goes on only where C defines what happens.
abbrev pub defined : Bool → Result (Unit {0})
defined false = undefined
defined true = ok tt

abbrev pub or_exit : Bool → Result (Unit {0})
or_exit false = exit
or_exit true = ok tt

infixl 5 ◌>>=◌
abbrev pub ◌>>=◌ {ℓ κ} : {X : Type ℓ} {Y : Type κ} → Result X → (X → Result Y) → Result Y
undefined >>= next = undefined
exit >>= next = exit
ok x >>= next = next x

infixl 5 ◌>>◌
abbrev pub ◌>>◌ {κ} : {Y : Type κ} → Result (Unit {0}) → Result Y → Result Y
first >> last = first >>= λ _. last

module _ {ℓ} {X : Type ℓ} where
  pub ok_eq : (x x' : X) → ok x ≡ ok x' → x ≡ x'
  ok_eq x x' e = cc

  -- The parts of what has come to a value.
  pub >>=-eq-ok {κ} :
      {Y : Type κ} (first : Result X) (next : X → Result Y) {y : Y}
      → (first >>= next) ≡ ok y
      → (x : X) × (first ≡ ok x) × (next x ≡ ok y)
  >>=-eq-ok undefined next e = cc
  >>=-eq-ok exit next e = cc
  >>=-eq-ok (ok x) next e = (x, refl, e)
