-- ===== src/Files.antt =====
-- src/MulticoreProccessor/Interface/src/Files.c and Interface/include/Files.h: the files that a run
-- opens and closes. `fopen` is a parameter, whose `none` is NULL.
pub mod Failing
pub mod Opening
use multicore_proccessor.Common.{
  ℕ, zero, suc, ◌+◌, Bool, true, false, ◌||◌, Option, none, some, List, [], ◌∷◌, ◌++◌, ◌==◌,
  if◌then◌else◌, ◌>>=◌, length, get_elem?, get_or,
}
use multicore_proccessor.Text.Bytes.{Bytes, codes}

-- The second argument of `fopen`: "r" or "w".
pub data Mode : Type 0 where
  read : Mode
  write : Mode

pub record CoreFiles (File : Type 0) : Type 0 where
  pub instruction_mem_file : Option File
  pub reg_file : Option File
  pub trace_file : Option File
  pub ds_ram_file : Option File
  pub ts_ram_file : Option File
  pub stats_file : Option File

-- The global variables of Files.h.
pub record Files (File : Type 0) : Type 0 where
  pub memin_file : Option File
  pub memout_file : Option File
  pub bus_trace_file : Option File
  pub core_files : List (CoreFiles File)

module _ {File : Type 0} where
  unfoldable pub is_null : Option File → Bool
  is_null none = true
  is_null (some file) = false

  -- Its comment in the code says that it holds when the files were opened.
  unfoldable pub opened_core_files_successfully : CoreFiles File → Bool
  unfolding is_null
  opened_core_files_successfully f =
      is_null f.ds_ram_file
      || is_null f.ts_ram_file
      || is_null f.instruction_mem_file
      || is_null f.reg_file
      || is_null f.trace_file
      || is_null f.stats_file

  -- `failed`
  unfoldable pub any_failed : List (CoreFiles File) → Bool
  unfolding opened_core_files_successfully
  any_failed [] = false
  any_failed (f ∷ fs) = opened_core_files_successfully f || any_failed fs

  unfoldable pub has_failed : Files File → Bool
  unfolding any_failed is_null
  has_failed f =
      any_failed f.core_files
      || is_null f.memin_file
      || is_null f.memout_file
      || is_null f.bus_trace_file

module _ {File : Type 0} (fopen : Bytes → Mode → Option File) (argv : List Bytes) where
  -- `relative_path_input ? fopen(name, mode) : fopen(argv[i], mode)`. Without the argument the code
  -- reads `argv` at its end or past it, which is undefined.
  unfoldable pub open_file : Bytes → ℕ → Mode → Option (Option File)
  open_file name i mode =
      if length argv == 1
      then some (fopen name mode)
      else (get_elem? argv i >>= λ path. some (fopen path mode))

  -- The six files of a core: the default names, and the indices into `argv`.
  unfoldable pub open_core :
      (imem regout trace dsram tsram stats : Bytes) (i_imem i_reg i_trace i_ds i_ts i_stats : ℕ)
      → Option (CoreFiles File)
  unfolding open_file
  open_core imem regout trace dsram tsram stats i_imem i_reg i_trace i_ds i_ts i_stats = do
    imem_file ← open_file imem i_imem read
    reg ← open_file regout i_reg write
    trace ← open_file trace i_trace write
    ds ← open_file dsram i_ds write
    ts ← open_file tsram i_ts write
    stats_file ← open_file stats i_stats write
    some (record {
      instruction_mem_file = imem_file;
      reg_file = reg;
      trace_file = trace;
      ds_ram_file = ds;
      ts_ram_file = ts;
      stats_file = stats_file;
    })

  -- `Files_OpenAll`: the files, and whether one of them is NULL.
  unfoldable pub open_all : Option (Files File × Bool)
  unfolding open_core has_failed
  open_all = do
    memin ← open_file (codes "memin.txt") 5 read
    memout ← open_file (codes "memout.txt") 6 write
    bus_trace ← open_file (codes "bustrace.txt") 15 write
    core0 ←
        open_core (codes "imem0.txt") (codes "regout0.txt") (codes "core0trace.txt")
          (codes "dsram0.txt") (codes "tsram0.txt") (codes "stats0.txt") 1 7 11 16 20 24
    core1 ←
        open_core (codes "imem1.txt") (codes "regout1.txt") (codes "core1trace.txt")
          (codes "dsram1.txt") (codes "tsram1.txt") (codes "stats1.txt") 2 8 12 17 21 25
    core2 ←
        open_core (codes "imem2.txt") (codes "regout2.txt") (codes "core2trace.txt")
          (codes "dsram2.txt") (codes "tsram2.txt") (codes "stats2.txt") 3 9 13 18 22 26
    core3 ←
        open_core (codes "imem3.txt") (codes "regout3.txt") (codes "core3trace.txt")
          (codes "dsram3.txt") (codes "tsram3.txt") (codes "stats3.txt") 4 10 14 19 23 27
    let files : Files File = record {
      memin_file = memin;
      memout_file = memout;
      bus_trace_file = bus_trace;
      core_files = core0 ∷ core1 ∷ core2 ∷ core3 ∷ [];
    }
    some (files, has_failed files)

module _ {File : Type 0} where
  -- The calls of `fclose`, in their order: its argument each time.
  unfoldable pub close_core_files : CoreFiles File → List (Option File)
  close_core_files f =
      f.ds_ram_file ∷ f.instruction_mem_file ∷ f.reg_file ∷ f.stats_file ∷ f.trace_file
      ∷ f.ts_ram_file ∷ []

  unfoldable pub close_cores : List (CoreFiles File) → List (Option File)
  unfolding close_core_files
  close_cores [] = []
  close_cores (f ∷ fs) = close_core_files f ++ close_cores fs

  unfoldable pub close_files : Files File → List (Option File)
  unfolding close_cores
  close_files f = f.memin_file ∷ f.memout_file ∷ f.bus_trace_file ∷ close_cores f.core_files
