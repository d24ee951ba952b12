-- ===== src/Sharding.antt =====
-- internal/pkg/sharding: types.go (destinations and the interface of a strategy) and sharder.go
-- (where a shard value comes from). The strategies and the helper stand in the modules below.
pub mod Sharder
pub mod Modulo
pub mod Balanced
pub mod Helper
use Prim.Native.String
use hermet.Base.{ℕ, String, List, Outcome, ◌^◌}

-- uint64 arithmetic wraps.
abbrev pub u64 : ℕ
u64 = 2 ^ 64

pub record Dst : Type 0 where
  pub db_suffix : ℕ
  pub tb_suffix : ℕ
  pub db : String
  pub tb : String

-- `Dst{}`
abbrev pub zero_dst : Dst
zero_dst = record { db_suffix = 0; tb_suffix = 0; db = ""; tb = "" }

unfoldable pub full_table : Dst → String
full_table d = String.◌++◌ d.db (String.◌++◌ "." d.tb)

-- `ShardValExtractor`
abbrev pub Extractor : Type 0
Extractor = ℕ → ℕ

-- The swaps that `rand.Shuffle(n, swap)` asks for, in order.
abbrev pub Shuffle : Type 0
Shuffle = ℕ → List (ℕ × ℕ)

-- `Strategy`
pub record Strategy : Type 0 where
  pub shard : ℕ → Outcome Dst
  pub dst_from_id : ℕ → Outcome Dst
  pub dst_from_shard_val : ℕ → Outcome Dst
  pub broadcast : Shuffle → Outcome (List Dst)
