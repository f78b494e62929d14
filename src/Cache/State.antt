-- ===== src/Cache/State.antt =====
-- The state of a cache, of Core/include/Cache.h, and what the caches of all cores share.
use multicore_proccessor.Common.{ℕ, Bool, true, false, ◌&&◌, ◌==◌, update}
use multicore_proccessor.Bus.State.{Bus}
use multicore_proccessor.Cache.Address.{index_of, tag_of}

-- `Cache_mesi_e`; the bit-field `mesi` of two bits holds exactly these.
pub data Mesi : Type 0 where
  invalid shared exclusive modified : Mesi

-- `Tsram_s`
pub record Tsram : Type 0 where
  pub tag : ℕ
  pub mesi : Mesi

-- `CacheStatistics_s`, of `uint32_t` counters
pub record CacheStatistics : Type 0 where
  pub read_hits : ℕ
  pub write_hits : ℕ
  pub read_misses : ℕ
  pub write_misses : ℕ

-- `CacheData_s`; its member `memory_stall` is used nowhere.
pub record CacheData : Type 0 where
  pub id : ℕ
  pub dsram : ℕ → ℕ
  pub tsram : ℕ → Tsram
  pub statistics : CacheStatistics

-- The bus, and the static variable `miss_occurred` of `Cache_ReadData` and that of `Cache_WriteData`:
-- there is one of each for all cores.
pub record Shared : Type 0 where
  pub bus : Bus
  pub read_miss_occurred : Bool
  pub write_miss_occurred : Bool

-- `Cache_Init`
unfoldable pub init : ℕ → CacheData
init id = record {
  id = id;
  dsram = λ _. 0;
  tsram = λ _. record { tag = 0; mesi = Mesi.invalid };
  statistics = record { read_hits = 0; write_hits = 0; read_misses = 0; write_misses = 0 };
}

abbrev pub is_invalid : Mesi → Bool
is_invalid Mesi.invalid = true
is_invalid Mesi.shared = false
is_invalid Mesi.exclusive = false
is_invalid Mesi.modified = false

abbrev pub is_valid : Mesi → Bool
is_valid Mesi.invalid = false
is_valid Mesi.shared = true
is_valid Mesi.exclusive = true
is_valid Mesi.modified = true

abbrev pub is_shared : Mesi → Bool
is_shared Mesi.shared = true
is_shared Mesi.invalid = false
is_shared Mesi.exclusive = false
is_shared Mesi.modified = false

abbrev pub is_modified : Mesi → Bool
is_modified Mesi.modified = true
is_modified Mesi.invalid = false
is_modified Mesi.shared = false
is_modified Mesi.exclusive = false

-- The line that an address leads to.
abbrev pub line : CacheData → ℕ → Tsram
line c address = c.tsram (index_of address)

-- `tsram->fields.tag == addr.fields.tag && tsram->fields.mesi != cache_mesi_invalid`
abbrev pub holds : CacheData → ℕ → Bool
holds c address = (line c address).tag == tag_of address && is_valid (line c address).mesi

-- `tsram->fields.mesi = state` on the line of an address
abbrev pub set_mesi : CacheData → ℕ → Mesi → CacheData
set_mesi c address state = record c {
  tsram = update c.tsram (index_of address) (record (line c address) { mesi = state });
}
