-- ===== src/Sharding/Modulo/Routing.antt =====
-- modulo_sharding.go, `Shard`, `DstFromShardVal` and `DstFromID`: which table a value is sent to.
use native.Mathlib.Nat.{
  mod-lt, mod-eq_of_lt, mul-add-mod_self_right, mul-add-div_right, div-eq_of_lt, mul_comm,
  mod-mod_of_dvd, dvd_of_mod-eq-zero, div-lt_iff_lt-mul, div-add-mod',
}
use hermet.Base.{ℕ, ◌+◌, ◌*◌, ◌/◌, ◌%◌, ◌<◌, ◌≡◌, ◌≢◌, ◌↔◌, arith, ok}
use hermet.Base.Decimal.{suffixed_injective}
use hermet.Sharding.{u64, Dst}
use hermet.Sharding.Modulo.{
  ModuloSharding, dst_at, total_shards, shard, dst_from_shard_val, dst_from_id,
}

-- Both counts are positive, and their product fits uint64.
pub record IsConfigured (s : ModuloSharding) : Type 0 where
  pub dbs : 0 < s.db_shard_count
  pub tbs : 0 < s.tb_shard_count
  pub product : s.db_shard_count * s.tb_shard_count < u64

module _ (s : ModuloSharding) (c : IsConfigured s) where
  abbrev pub shards : ℕ
  shards = s.db_shard_count * s.tb_shard_count

  pub total-eq-shards : total_shards s ≡ shards
  total-eq-shards = mod-eq_of_lt c.product

  pub shards_pos : 0 < shards
  shards_pos = grind (arith, c.dbs, c.tbs)

  row_lt : (v : ℕ) → (v % shards) / s.db_shard_count < s.tb_shard_count
  row_lt v =
      (div-lt_iff_lt-mul c.dbs).1
        (omega (arith, mod-lt v shards_pos, mul_comm s.db_shard_count s.tb_shard_count))

  -- The table of database `i` and row `j` takes the values with index `j * databases + i`.
  pub record Lands (v : ℕ) : Type 0 where
    pub i : ℕ
    pub j : ℕ
    pub target : shard s v ≡ ok (dst_at s i j)
    pub in_dbs : i < s.db_shard_count
    pub in_tbs : j < s.tb_shard_count
    pub index : j * s.db_shard_count + i ≡ v % shards

  -- With positive counts whose product fits uint64, `Shard` returns for each value: table `j` of
  -- database `i`, both in range, where `j * databases + i` is the value's remainder by the number
  -- of shards.
  pub shard-Lands : (v : ℕ) → Lands v
  unfolding shard
  shard-Lands v = record {
    i = (v % shards) % s.db_shard_count;
    j = (v % shards) / s.db_shard_count;
    target = rw total-eq-shards (ground (arith, shards_pos));
    in_dbs = mod-lt _ c.dbs;
    in_tbs = row_lt v;
    index = div-add-mod' (v % shards) s.db_shard_count;
  }

  in_range :
      (i j : ℕ) → i < s.db_shard_count → j < s.tb_shard_count → j * s.db_shard_count + i < shards
  in_range i j hi hj = grind arith

  -- With positive counts whose product fits uint64 every table of every database is the target of
  -- some value: table `j` of database `i` of the value `j * databases + i`.
  pub shard-index :
      (i j : ℕ)
      → i < s.db_shard_count
      → j < s.tb_shard_count
      → shard s (j * s.db_shard_count + i) ≡ ok (dst_at s i j)
  unfolding shard
  shard-index i j hi hj =
      let k : j * s.db_shard_count + i < shards = in_range i j hi hj in
      rw total-eq-shards (
        ground (
          arith,
          mod-eq_of_lt k,
          mul-add-mod_self_right j s.db_shard_count i,
          mod-eq_of_lt hi,
          mul-add-div_right c.dbs j i,
          div-eq_of_lt hi,
        ))

  shard_cong : (v w : ℕ) → v % shards ≡ w % shards → shard s v ≡ shard s w
  unfolding shard
  shard_cong v w h = rw total-eq-shards (ground arith)

  -- With positive counts whose product fits uint64, and for values that `Shard` sends somewhere:
  -- two values are sent to the same table of the same database exactly when they have the same
  -- remainder by the number of shards: no two of the names coincide.
  pub shard_same_table :
      (v w : ℕ) (d e : Dst)
      → shard s v ≡ ok d
      → shard s w ≡ ok e
      → ((d.db ≡ e.db) × (d.tb ≡ e.tb)) ↔ (v % shards ≡ w % shards)
  unfolding dst_at
  shard_same_table v w d e hd he =
      let l : Lands v = shard-Lands v in
      let m : Lands w = shard-Lands w in
      (
        λ names. ground (
          arith,
          l.target,
          l.index,
          m.target,
          m.index,
          suffixed_injective s.db_prefix l.i m.i,
          suffixed_injective s.tb_prefix l.j m.j,
        ),
        λ h. ground (arith, shard_cong v w h),
      )

  -- `DstFromID` finds the destination that `Shard` gave for the value in the id, whatever the
  -- value was, if the number of shards divides 1024.
  pub dst_from_id-eq-shard :
      1024 % shards ≡ 0 → (v id : ℕ) → s.extractor id ≡ v % 1024 → dst_from_id s id ≡ shard s v
  unfolding dst_from_id dst_from_shard_val shard
  dst_from_id-eq-shard h v id e =
      rw (total-eq-shards, e)
        (ground (arith, mod-mod_of_dvd shards v (dvd_of_mod-eq-zero shards h)))

  -- If it does not, the value 1024 is sent to a table where its id is not looked for.
  pub dst_from_id-ne-shard :
      1024 % shards ≢ 0 → (id : ℕ) → s.extractor id ≡ 1024 % 1024 → dst_from_id s id ≢ shard s 1024
  unfolding dst_from_id dst_from_shard_val shard dst_at
  dst_from_id-ne-shard h id e p =
      let k = 1024 % shards in
      absurd (
        ground
          (arith, total-eq-shards, shards_pos, div-add-mod' k s.db_shard_count, mod-lt k c.dbs))
