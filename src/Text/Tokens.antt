-- ===== src/Text/Tokens.antt =====
-- The tokens that `strtok` finds in a text that is put together of words and delimiters.
use multicore_proccessor.Common.{
  ℕ, ◌≡◌, refl, ◌∙◌, Bool, true, false, not, ◌&&◌, some, [], ◌∷◌, ◌++◌, arith, zero, suc, ◌<◌, ◌==◌,
}
use multicore_proccessor.Text.Bytes.{Bytes, skip, before, behind, strtok, has}

-- No byte is of the kind.
unfoldable pub is_free : (ℕ → Bool) → Bytes → Bool
is_free kind [] = true
is_free kind (c ∷ cs) = not (kind c) && is_free kind cs

pub is_free-append :
    (kind : ℕ → Bool) (a b : Bytes)
    → is_free kind a ≡ true
    → is_free kind b ≡ true
    → is_free kind (a ++ b) ≡ true
unfolding is_free
is_free-append kind [] b h h' = h'
is_free-append kind (c ∷ a) b h h' = ground (arith, is_free-append kind a b)

pub is_free_weaken :
    (kind other : ℕ → Bool) (s : Bytes)
    → ((c : ℕ) → kind c ≡ false → other c ≡ false)
    → is_free kind s ≡ true
    → is_free other s ≡ true
unfolding is_free
is_free_weaken kind other [] w h = refl
is_free_weaken kind other (c ∷ s) w h = ground (arith, w c, is_free_weaken kind other s w)

module _ (kind : ℕ → Bool) where
  pub before_free : (s : Bytes) → is_free kind s ≡ true → before kind s ≡ s
  unfolding is_free before
  before_free [] h = refl
  before_free (c ∷ s) h = ground (arith, before_free s)

  behind_free : (s : Bytes) → is_free kind s ≡ true → behind kind s ≡ []
  unfolding is_free behind
  behind_free [] h = refl
  behind_free (c ∷ s) h = ground (arith, behind_free s)

  before_word :
      (w : Bytes) (d : ℕ) (rest : Bytes)
      → is_free kind w ≡ true
      → kind d ≡ true
      → (before kind (w ++ d ∷ rest) ≡ w) × (behind kind (w ++ d ∷ rest) ≡ rest)
  unfolding is_free before behind
  before_word [] d rest h k = ground arith
  before_word (c ∷ w) d rest h k = ground (arith, before_word w d rest)

  -- A delimiter in front is passed over.
  pub strtok-delimiter : (d : ℕ) (s : Bytes) → kind d ≡ true → strtok kind (d ∷ s) ≡ strtok kind s
  unfolding strtok skip
  strtok-delimiter d s k = ground arith

  strtok-head :
      (c : ℕ) (s : Bytes)
      → kind c ≡ false
      → strtok kind (c ∷ s) ≡ some (before kind (c ∷ s), behind kind (c ∷ s))
  unfolding strtok skip
  strtok-head c s k = ground arith

  -- A word that a delimiter ends.
  pub strtok-word :
      (c : ℕ) (w : Bytes) (d : ℕ) (rest : Bytes)
      → is_free kind (c ∷ w) ≡ true
      → kind d ≡ true
      → strtok kind (c ∷ w ++ d ∷ rest) ≡ some (c ∷ w, rest)
  strtok-word c w d rest h k =
      let ends = before_word (c ∷ w) d rest h k in
      strtok-head c (w ++ d ∷ rest) (unfold is_free in ground arith) ∙ rw (ends.0, ends.1) refl

  -- A word that the text ends.
  pub strtok_last :
      (c : ℕ) (w : Bytes) → is_free kind (c ∷ w) ≡ true → strtok kind (c ∷ w) ≡ some (c ∷ w, [])
  strtok_last c w h =
      strtok-head c w (unfold is_free in ground arith)
      ∙ rw (before_free (c ∷ w) h, behind_free (c ∷ w) h) refl

pub has_free : (c : ℕ) (s : Bytes) → is_free (λ x. x == c) s ≡ true → has c s ≡ false
unfolding is_free has
has_free c [] h = refl
has_free c (x ∷ s) h = ground (arith, has_free c s)

-- A test of all numbers below a bound.
unfoldable pub for_all : ℕ → (ℕ → Bool) → Bool
for_all zero f = true
for_all (suc n) f = f n && for_all n f

pub for_all-lt : (n i : ℕ) (f : ℕ → Bool) → for_all n f ≡ true → i < n → f i ≡ true
unfolding for_all
for_all-lt zero i f h lt = absurd (omega arith)
for_all-lt (suc n) i f h lt = ground (arith, for_all-lt n i f)
