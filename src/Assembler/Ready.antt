-- ===== src/Assembler/Ready.antt =====
-- What holds of the variables of asm.c, and what keeps it from token to token.
use multicore_proccessor.Common.{ℕ, ◌^◌, ◌≤◌, ◌<◌, ◌≡◌, refl, true, Option, none, some, length}
use multicore_proccessor.Text.Bytes.{Bytes, strtok}
use multicore_proccessor.Text.Tokens.{is_free}
use multicore_proccessor.Assembler.Result.{Result, ok}
use multicore_proccessor.Assembler.Names.{find_register}
use multicore_proccessor.Assembler.State.{Assembler, imem_size, label_size}
use multicore_proccessor.Assembler.Line.{is_delimiter, with_token, with_register, cuts}
use multicore_proccessor.Assembler.Bounds.{Fits, Holds, find_register-lt}

-- Instructions stand below `pc` only, in the memory; a label has room in its row; and what a jump
-- names is cut before each of the bytes 'n', 0xd and 0xa.
pub record IsReady (s : Assembler) : Type 0 where
  pub pc : s.pc ≤ imem_size
  pub imem : (i : ℕ) → s.imem i < 2 ^ 32
  pub dmem : (a : ℕ) → s.dmem a < 2 ^ 32
  pub above : (i : ℕ) → s.pc ≤ i → s.imem i ≡ 0
  pub jump : (i : ℕ) → is_free cuts (s.jumplabels i) ≡ true
  pub label : (i : ℕ) → length (s.labels i) < label_size
  pub addr : Fits s.addr
  pub word : Fits s.word
  pub imm : Fits s.imm

-- What goes on keeps the property, if it is kept for each token.
pub with_token-Holds :
    (P : Assembler → Type 0) (s : Assembler) (rest : Bytes) (k : Bytes → Bytes → Result Assembler)
    → P s
    → ((p more : Bytes) → Holds P (k p more))
    → Holds P (with_token s rest k)
unfolding with_token
with_token-Holds P s rest k h g =
    elim (strtok is_delimiter rest)
      as (λ o. Holds P (elim o [ none ↦ ok s | some (p, more) ↦ k p more ])) [
        | none ↦ h
        | some (p, more) ↦ g p more
      ]

found-Holds :
    (P : Assembler → Type 0) (s : Assembler) (o : Option ℕ) (k : ℕ → Result Assembler) (n : ℕ)
    → P s
    → ((r : ℕ) → o ≡ some r → r < n)
    → ((r : ℕ) → r < n → Holds P (k r))
    → Holds P (elim o [ none ↦ ok s | some r ↦ k r ])
found-Holds P s none k n h lt g = h
found-Holds P s (some r) k n h lt g = g r (lt r refl)

pub with_register-Holds :
    (P : Assembler → Type 0) (s : Assembler) (rest : Bytes) (k : ℕ → Bytes → Result Assembler)
    → P s
    → ((r : ℕ) (more : Bytes) → r < 16 → Holds P (k r more))
    → Holds P (with_register s rest k)
unfolding with_register
with_register-Holds P s rest k h g = with_token-Holds P s rest _ h λ p more.
    found-Holds P s (find_register p) (λ r. k r more) 16 h (find_register-lt p)
      (λ r lt. g r more lt)
