-- ===== src/Sharding/Modulo.antt =====
-- internal/pkg/sharding/modulo_sharding.go: shards by the remainder of the shard value.
pub mod Routing
pub mod Grid
use hermet.Base.{
  ℕ, zero, suc, ◌+◌, ◌*◌, ◌/◌, ◌%◌, String, Option, none, some, List, [], ltb, leb, ◌^◌, same, ◌==◌,
  if◌then◌else◌, length, set, replicate, errorf, Outcome, ok, err, panic, then_do,
}
use hermet.Base.Decimal.{suffixed}
use hermet.Sharding.{u64, Dst, zero_dst, Extractor, Strategy}

pub record ModuloSharding : Type 0 where
  pub extractor : Extractor
  pub db_prefix : String
  pub tb_prefix : String
  pub db_shard_count : ℕ
  pub tb_shard_count : ℕ

-- A nil extractor is `none`.
unfoldable pub new_modulo_sharding :
    Option Extractor → String → String → ℕ → ℕ → Outcome ModuloSharding
new_modulo_sharding none db_prefix tb_prefix db_shard_count tb_shard_count =
    err (errorf "extractor cannot be nil" [])
new_modulo_sharding (some extractor) db_prefix tb_prefix db_shard_count tb_shard_count =
    if db_shard_count == 0
    then err (errorf "dbShardCount must be greater than 0" [])
    else if tb_shard_count == 0
    then err (errorf "tbShardCount must be greater than 0" [])
    else if same db_prefix ""
    then err (errorf "dbPrefix cannot be empty" [])
    else if same tb_prefix ""
    then err (errorf "tbPrefix cannot be empty" [])
    else ok (record {
      extractor = extractor;
      db_prefix = db_prefix;
      tb_prefix = tb_prefix;
      db_shard_count = db_shard_count;
      tb_shard_count = tb_shard_count;
    })

-- The destination of database `i` and table `j`.
unfoldable pub dst_at : ModuloSharding → ℕ → ℕ → Dst
dst_at s i j = record {
  db_suffix = i;
  tb_suffix = j;
  db = suffixed s.db_prefix i;
  tb = suffixed s.tb_prefix j;
}

-- `s.dbShardCount * s.tbShardCount` in uint64
abbrev pub total_shards : ModuloSharding → ℕ
total_shards s = (s.db_shard_count * s.tb_shard_count) % u64

-- Go's `%` panics on a zero divisor.
unfoldable pub shard : ModuloSharding → ℕ → Outcome Dst
shard s shard_val =
    let index = shard_val % total_shards s in
    if total_shards s == 0
    then panic
    else ok (dst_at s (index % s.db_shard_count) (index / s.db_shard_count))

unfoldable pub dst_from_shard_val : ModuloSharding → ℕ → Outcome Dst
dst_from_shard_val s shard_val =
    let index = shard_val % total_shards s in
    if total_shards s == 0
    then panic
    else ok (dst_at s (index % s.db_shard_count) (index / s.db_shard_count))

unfoldable pub dst_from_id : ModuloSharding → ℕ → Outcome Dst
dst_from_id s id = dst_from_shard_val s (s.extractor id)

-- `res[i*s.tbShardCount+j] = …`: out of range is a panic.
store : ModuloSharding → ℕ → ℕ → List Dst → Outcome (List Dst)
store s i j res =
    let at = ((i * s.tb_shard_count) % u64 + j) % u64 in
    if ltb at (length res) then ok (set res at (dst_at s i j)) else panic

-- The inner loop, from table `j` with `n` rounds left, and the outer one.
fill_tables : ModuloSharding → ℕ → ℕ → ℕ → List Dst → Outcome (List Dst)
unfolding store
fill_tables s i zero j res = ok res
fill_tables s i (suc n) j res = then_do (store s i j res) (λ res'. fill_tables s i n (j + 1) res')

fill_databases : ModuloSharding → ℕ → ℕ → List Dst → Outcome (List Dst)
unfolding fill_tables
fill_databases s zero i res = ok res
fill_databases s (suc n) i res =
    then_do (fill_tables s i s.tb_shard_count 0 res) (λ res'. fill_databases s n (i + 1) res')

-- The bytes of one `Dst`, two integers and two strings, and those that Go can address on linux/amd64.
abbrev pub dst_bytes : ℕ
dst_bytes = 48

abbrev pub max_alloc : ℕ
max_alloc = 2 ^ 48

-- `make([]Dst, n)`, which panics where the slice would be larger than that.
unfoldable pub make_dsts : ℕ → Outcome (List Dst)
make_dsts n = if leb (dst_bytes * n) max_alloc then ok (replicate n zero_dst) else panic

unfoldable pub broadcast : ModuloSharding → Outcome (List Dst)
unfolding fill_databases make_dsts
broadcast s = then_do (make_dsts (total_shards s)) (fill_databases s s.db_shard_count 0)

unfoldable pub as_strategy : ModuloSharding → Strategy
as_strategy s = record {
  shard = shard s;
  dst_from_id = dst_from_id s;
  dst_from_shard_val = dst_from_shard_val s;
  broadcast = λ _. broadcast s;
}
