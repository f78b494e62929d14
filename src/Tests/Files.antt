-- ===== src/Tests/Files.antt =====
-- Witnesses about src/MulticoreProccessor/Interface/src/Files.c.
use multicore_proccessor.Common.{
  ℕ, zero, suc, Bool, false, Option, none, some, List, [], ◌∷◌, ◌≡◌, ◌≢◌, ◌≤◌, ◌<◌, ◌↔◌, arith,
  get_or, if◌then◌else◌,
}
use multicore_proccessor.Text.Bytes.{Bytes, codes, equal}
use multicore_proccessor.Files.{Mode, Files, open_all}
use multicore_proccessor.Files.Opening.{mode_of, open_all-succeeds}

-- A system on which all files can be opened but those named "closed".
abbrev fopen : Bytes → Mode → Option Bytes
unfolding equal
fopen path mode = if equal path (codes "closed") then none else some path

abbrev copies : ℕ → Bytes → List Bytes
copies zero path = []
copies (suc n) path = path ∷ copies n path

open_all-succeeds_example :
    (files : Files Bytes) × (failed : Bool) × (open_all fopen (copies 28 (codes "f"))
      ≡ some (files, failed))
    × ((failed ≡ false) ↔ (
        (k : ℕ) → 1 ≤ k → k < 28 → fopen (get_or (copies 28 (codes "f")) k []) (mode_of k) ≢ none))
open_all-succeeds_example = open_all-succeeds fopen (copies 28 (codes "f")) (omega arith)
