-- ===== src/Files/Opening.antt =====
-- When the files of a run are open.
use multicore_proccessor.Common.{
  ℕ, zero, suc, ◌+◌, ◌≤◌, ◌<◌, ◌≡◌, ◌≢◌, ◌↔◌, refl, ap, ◌∙◌, Bool, false, Option, none, some, List,
  [], ◌∷◌, arith, ◌==◌, leb, if◌then◌else◌, ◌>>=◌, length, get_elem?, get_or,
}
use multicore_proccessor.Text.Bytes.{Bytes, codes}
use multicore_proccessor.Files.{
  Mode, read, write, CoreFiles, Files, is_null, opened_core_files_successfully, any_failed,
  has_failed, open_file, open_core, open_all,
}
use multicore_proccessor.Files.Failing.{core_failed, all_failed, all_failed_iff}

-- The first five arguments are read, the others are written.
abbrev pub mode_of : ℕ → Mode
mode_of i = if leb i 5 then read else write

get_elem?-some :
    (argv : List Bytes) (i : ℕ) → i < length argv → get_elem? argv i ≡ some (get_or argv i [])
get_elem?-some [] i h = absurd (omega arith)
get_elem?-some (x ∷ argv) zero h = refl
get_elem?-some (x ∷ argv) (suc i) h = get_elem?-some argv i (omega arith)

get_elem?-none : (argv : List Bytes) (i : ℕ) → length argv ≤ i → get_elem? argv i ≡ none
get_elem?-none [] i h = refl
get_elem?-none (x ∷ argv) zero h = absurd (omega arith)
get_elem?-none (x ∷ argv) (suc i) h = get_elem?-none argv i (omega arith)

not_equal : (a b : ℕ) → a ≢ b → (a == b) ≡ false
not_equal a b h = ground arith

module _ {File : Type 0} (fopen : Bytes → Mode → Option File) (argv : List Bytes) where
  -- What the argument is opened to.
  abbrev pub opened : ℕ → Option File
  opened i = fopen (get_or argv i []) (mode_of i)

  open_file-argument :
      (name : Bytes) (i : ℕ) (mode : Mode)
      → length argv ≢ 1
      → i < length argv
      → open_file fopen argv name i mode ≡ some (fopen (get_or argv i []) mode)
  unfolding open_file
  open_file-argument name i mode h lt =
      ap
        (λ (b : Bool).
          if b
          then some (fopen name mode)
          else (get_elem? argv i >>= λ path. some (fopen path mode)))
        (not_equal (length argv) 1 h)
      ∙ ap (λ (o : Option Bytes). o >>= λ path. some (fopen path mode)) (get_elem?-some argv i lt)

  opened_core : ℕ → CoreFiles File
  opened_core i = record {
    instruction_mem_file = opened (1 + i);
    reg_file = opened (7 + i);
    trace_file = opened (11 + i);
    ds_ram_file = opened (16 + i);
    ts_ram_file = opened (20 + i);
    stats_file = opened (24 + i);
  }

  opened_files : Files File
  unfolding opened_core
  opened_files = record {
    memin_file = opened 5;
    memout_file = opened 6;
    bus_trace_file = opened 15;
    core_files = opened_core 0 ∷ opened_core 1 ∷ opened_core 2 ∷ opened_core 3 ∷ [];
  }

  open_core-opened :
      (imem regout trace dsram tsram stats : Bytes) (i : ℕ)
      → i < 4
      → 28 ≤ length argv
      → open_core fopen argv imem regout trace dsram tsram stats
          (1 + i)
          (7 + i)
          (11 + i)
          (16 + i)
          (20 + i)
          (24 + i)
        ≡ some (record {
          instruction_mem_file = fopen (get_or argv (1 + i) []) read;
          reg_file = fopen (get_or argv (7 + i) []) write;
          trace_file = fopen (get_or argv (11 + i) []) write;
          ds_ram_file = fopen (get_or argv (16 + i) []) write;
          ts_ram_file = fopen (get_or argv (20 + i) []) write;
          stats_file = fopen (get_or argv (24 + i) []) write;
        })
  unfolding open_core
  open_core-opened imem regout trace dsram tsram stats i lt h =
      rw
        (
          open_file-argument imem (1 + i) read (omega arith) (omega arith),
          open_file-argument regout (7 + i) write (omega arith) (omega arith),
          open_file-argument trace (11 + i) write (omega arith) (omega arith),
          open_file-argument dsram (16 + i) write (omega arith) (omega arith),
          open_file-argument tsram (20 + i) write (omega arith) (omega arith),
          open_file-argument stats (24 + i) write (omega arith) (omega arith),
        )
        refl

  open_all-opened :
      28 ≤ length argv → open_all fopen argv ≡ some (opened_files, has_failed opened_files)
  unfolding open_all opened_files opened_core
  open_all-opened h =
      rw
        (
          open_file-argument (codes "memin.txt") 5 read (omega arith) (omega arith),
          open_file-argument (codes "memout.txt") 6 write (omega arith) (omega arith),
          open_file-argument (codes "bustrace.txt") 15 write (omega arith) (omega arith),
          open_core-opened (codes "imem0.txt") (codes "regout0.txt") (codes "core0trace.txt")
              (codes "dsram0.txt") (codes "tsram0.txt") (codes "stats0.txt") 0 (omega arith) h,
          open_core-opened (codes "imem1.txt") (codes "regout1.txt") (codes "core1trace.txt")
              (codes "dsram1.txt") (codes "tsram1.txt") (codes "stats1.txt") 1 (omega arith) h,
          open_core-opened (codes "imem2.txt") (codes "regout2.txt") (codes "core2trace.txt")
              (codes "dsram2.txt") (codes "tsram2.txt") (codes "stats2.txt") 2 (omega arith) h,
          open_core-opened (codes "imem3.txt") (codes "regout3.txt") (codes "core3trace.txt")
              (codes "dsram3.txt") (codes "tsram3.txt") (codes "stats3.txt") 3 (omega arith) h,
        )
        refl

is_null_iff : {File : Type 0} (f : Option File) → (is_null f ≡ false) ↔ (f ≢ none)
unfolding is_null
is_null_iff none = (λ h. cc, λ h. absurd (h refl))
is_null_iff (some file) = (λ h e. cc, λ h. refl)

files_iff :
    {File : Type 0} (fopen : Bytes → Mode → Option File) (argv : List Bytes)
    → (has_failed (opened_files fopen argv) ≡ false)
      ↔ ((k : ℕ) → 1 ≤ k → k < 28 → is_null (opened fopen argv k) ≡ false)
unfolding has_failed any_failed opened_core_files_successfully opened_files opened_core all_failed
    core_failed
files_iff fopen argv = all_failed_iff (λ k. is_null (opened fopen argv k))

-- With 27 arguments at least, no argument is missing, and the run goes on just where each of the first 27
-- could be opened, the first five to be read, the others to be written.
pub open_all-succeeds :
    {File : Type 0} (fopen : Bytes → Mode → Option File) (argv : List Bytes)
    → 28 ≤ length argv
    → (files : Files File) × (failed : Bool) × (open_all fopen argv ≡ some (files, failed))
      × ((failed ≡ false)
          ↔ ((k : ℕ) → 1 ≤ k → k < 28 → fopen (get_or argv k []) (mode_of k) ≢ none))
open_all-succeeds fopen argv h = (
  opened_files fopen argv,
  has_failed (opened_files fopen argv),
  open_all-opened fopen argv h,
  (
    λ h k le lt. (is_null_iff (opened fopen argv k)).0 ((files_iff fopen argv).0 h k le lt),
    λ h. (files_iff fopen argv).1 (λ k le lt. (is_null_iff (opened fopen argv k)).1 (h k le lt)),
  ),
)

module _ {File : Type 0} (fopen : Bytes → Mode → Option File) (argv : List Bytes) where
  open_file-none :
      (name : Bytes) (i : ℕ) (mode : Mode)
      → length argv ≢ 1
      → length argv ≤ i
      → open_file fopen argv name i mode ≡ none
  unfolding open_file
  open_file-none name i mode h le = rw (not_equal (length argv) 1 h, get_elem?-none argv i le) refl

  open_core-none :
      (imem regout trace dsram tsram stats : Bytes) (i_imem i_reg i_trace i_ds i_ts i_stats : ℕ)
      → open_file fopen argv stats i_stats write ≡ none
      → open_core fopen argv imem regout trace dsram tsram stats i_imem i_reg i_trace i_ds i_ts
          i_stats
        ≡ none
  unfolding open_core
  open_core-none imem regout trace dsram tsram stats i_imem i_reg i_trace i_ds i_ts i_stats h =
      ground arith

  -- With arguments, but fewer than the 27, the code reads `argv` where there is no argument.
  pub open_all-eq-none : length argv ≢ 1 → length argv ≤ 27 → open_all fopen argv ≡ none
  unfolding open_all
  open_all-eq-none h le =
      let core3 =
        open_core-none (codes "imem3.txt") (codes "regout3.txt") (codes "core3trace.txt")
          (codes "dsram3.txt") (codes "tsram3.txt") (codes "stats3.txt") 4 10 14 19 23 27
          (open_file-none (codes "stats3.txt") 27 write h le) in
      ground (arith, core3)
