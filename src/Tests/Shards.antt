-- ===== src/Tests/Shards.antt =====
-- The strategies and the helper (internal/pkg/sharding) with the counts of config/sharding.yaml:
-- two databases with four tables each.
use mathlib.Core.List.{Perm}
use hermet.Base.{ℕ, ◌%◌, ◌≡◌, ◌≢◌, ◌↔◌, refl, some, List, [], ◌∷◌, length, get_elem?, arith, ok}
use hermet.Base.Decimal
use hermet.Snowflake
use hermet.Snowflake.{
  Generator, new_generator, Machine, epoch_millis, stamp, now, catch_up, take_slot, pack,
  extract_shard_val,
}
use hermet.Snowflake.Runs.{at_millis}
use hermet.Sharding.{Dst, Shuffle}
use hermet.Sharding.Sharder.{Hash, single_id, shard_val}
use hermet.Sharding.Modulo
use hermet.Sharding.Modulo.{ModuloSharding, dst_at, shard}
use hermet.Sharding.Modulo.Routing.{IsConfigured, Lands, shard-Lands, shard_same_table}
use hermet.Sharding.Modulo.Grid.{grid, broadcast-eq-grid, broadcast_entries}
use hermet.Sharding.Balanced
use hermet.Sharding.Balanced.{
  BalancedSharding, mode_round_robin, mode_shuffle, round_robin_broadcast, lookup, insert, group_of,
  group_by_db, max_tb_cnt, one_round, rounds, shuffle_broadcast, apply_swaps, swap,
}
use hermet.Sharding.Balanced.Order.{broadcast-perm}
use hermet.Sharding.Balanced.Even.{broadcast-shard}
use hermet.Sharding.Helper
use hermet.Sharding.Helper.{next_id_and_shard}
use hermet.Sharding.Helper.{ShardHelper}
use hermet.Providers.Shards.{ShardingConfig, configured, shard_helper-eq-ok}
use hermet.Providers.Shards.Configs.{user_contact_shard_helper, user_contacts, provided-leads_back}
use hermet.Sharding.Helper.Consistency.{snowflake_helper, dst_from_id-ne-next_id_and_shard}

abbrev with_counts : ℕ → ℕ → ModuloSharding
with_counts dbs tbs = record {
  extractor = extract_shard_val;
  db_prefix = "hermet";
  tb_prefix = "biz_user";
  db_shard_count = dbs;
  tb_shard_count = tbs;
}

abbrev deployed : ModuloSharding
deployed = with_counts 2 4

deployed-IsConfigured : IsConfigured deployed
deployed-IsConfigured = record { dbs = omega arith; tbs = omega arith; product = omega arith }

-- Three databases with two tables: six tables, which does not divide 1024.
abbrev uneven : ModuloSharding
uneven = with_counts 3 2

uneven-IsConfigured : IsConfigured uneven
uneven-IsConfigured = record { dbs = omega arith; tbs = omega arith; product = omega arith }

names :
    dst_at deployed 1 3
    ≡ record { db_suffix = 1; tb_suffix = 3; db = "hermet_1"; tb = "biz_user_3" }
unfolding dst_at Decimal.suffixed
names = refl

to_index_five : shard deployed 1029 ≡ ok (dst_at deployed 1 2)
unfolding shard
to_index_five = refl

shard-Lands_example : Lands deployed deployed-IsConfigured 1029
shard-Lands_example = shard-Lands deployed deployed-IsConfigured 1029

shard_same_table_example :
    (((dst_at deployed 1 2).db ≡ (dst_at deployed 1 2).db)
      × ((dst_at deployed 1 2).tb ≡ (dst_at deployed 1 2).tb))
    ↔ (1029 % 8 ≡ 5 % 8)
unfolding shard
shard_same_table_example =
    shard_same_table deployed deployed-IsConfigured 1029 5 (dst_at deployed 1 2)
      (dst_at deployed 1 2) refl refl

broadcast_entries_example :
    (res : List Dst) × (Modulo.broadcast deployed ≡ ok res)
    × (length res ≡ 8)
    × (get_elem? res 6 ≡ some (dst_at deployed 1 2))
broadcast_entries_example =
    broadcast_entries deployed 1 2 deployed-IsConfigured (omega arith) (omega arith) (omega arith)

abbrev no_shuffle : Shuffle
no_shuffle n = []

abbrev round_robin : BalancedSharding
round_robin = record { base = Modulo.as_strategy deployed; mode = mode_round_robin }

abbrev dsts : List Dst
dsts =
    dst_at deployed 0 0
    ∷ dst_at deployed 1 0
    ∷ dst_at deployed 0 1
    ∷ dst_at deployed 1 1
    ∷ dst_at deployed 0 2
    ∷ dst_at deployed 1 2
    ∷ dst_at deployed 0 3
    ∷ dst_at deployed 1 3
    ∷ []

abbrev sum_zero : Hash
sum_zero l = 0

abbrev at_clock : List ℕ → Machine
at_clock readings = record { gen = new_generator; readings = readings }

round_robin_order : Balanced.broadcast round_robin no_shuffle ≡ ok dsts
unfolding Balanced.broadcast Modulo.as_strategy Modulo.broadcast round_robin_broadcast lookup insert
    group_of group_by_db max_tb_cnt one_round rounds dst_at Decimal.suffixed
round_robin_order = refl

broadcast-perm_example : Perm dsts (grid deployed)
unfolding Modulo.as_strategy
broadcast-perm_example =
    broadcast-perm round_robin no_shuffle (grid deployed) dsts
      (broadcast-eq-grid deployed deployed-IsConfigured (omega arith)) round_robin_order

broadcast-shard_example :
    (res : List Dst) × (dst : Dst) × (Balanced.broadcast round_robin no_shuffle ≡ ok res)
    × (get_elem? res 5 ≡ some dst)
    × (shard deployed 5 ≡ ok dst)
broadcast-shard_example =
    broadcast-shard deployed deployed-IsConfigured no_shuffle 5 (omega arith) (omega arith)

abbrev after : ℕ → List ℕ → Machine
after last readings = record {
  gen = record new_generator { sequence = 0; last_time = last };
  readings = readings;
}

made :
    next_id_and_shard sum_zero
      (snowflake_helper deployed)
      (single_id 1029)
      (at_clock (at_millis 5 ∷ []))
    ≡ (ok (20992000, dst_at deployed 1 2), after 5 [])
unfolding next_id_and_shard shard_val Modulo.as_strategy shard Snowflake.next_id now catch_up
    take_slot pack new_generator
made = refl

made_uneven :
    next_id_and_shard sum_zero
      (snowflake_helper uneven)
      (single_id 1024)
      (at_clock (at_millis 5 ∷ []))
    ≡ (ok (20971520, dst_at uneven 1 1), after 5 [])
unfolding next_id_and_shard shard_val Modulo.as_strategy shard Snowflake.next_id now catch_up
    take_slot pack new_generator
made_uneven = refl

dst_from_id-ne-next_id_and_shard_example :
    Helper.dst_from_id (snowflake_helper uneven) 20971520 (after 5 [])
    ≢ (ok (dst_at uneven 1 1), after 5 [])
unfolding new_generator
dst_from_id-ne-next_id_and_shard_example =
    dst_from_id-ne-next_id_and_shard sum_zero uneven uneven-IsConfigured (λ i. refl)
      (at_clock (at_millis 5 ∷ [])) (after 5 []) 20971520 (dst_at uneven 1 1) (omega arith)
      (omega arith) made_uneven

abbrev biz_seven : ℕ
biz_seven = 7

abbrev deployed_config : ShardingConfig
deployed_config = record {
  db_prefix = deployed.db_prefix;
  tb_prefix = deployed.tb_prefix;
  db_shard_count = deployed.db_shard_count;
  tb_shard_count = deployed.tb_shard_count;
}

abbrev deployed_helper : ShardHelper Machine
deployed_helper = configured Snowflake.next_id extract_shard_val deployed_config

provided_deployed :
    user_contact_shard_helper (λ key. ok deployed_config) Snowflake.next_id extract_shard_val
    ≡ ok deployed_helper
unfolding user_contact_shard_helper
provided_deployed =
    (shard_helper-eq-ok Snowflake.next_id extract_shard_val deployed_config deployed_helper).1
      (omega arith, omega arith, λ e. cc, λ e. cc, refl)

provided-leads_back_example :
    Helper.dst_from_id deployed_helper 20992000 (after 5 [])
    ≡ (ok (dst_at deployed 1 2), after 5 [])
unfolding new_generator next_id_and_shard Balanced.as_strategy Modulo.as_strategy
provided-leads_back_example =
    provided-leads_back (λ key. ok deployed_config) sum_zero user_contacts deployed_helper
      deployed_config (single_id 1029) (at_clock (at_millis 5 ∷ [])) (after 5 []) 20992000
      (dst_at deployed 1 2) provided_deployed refl (omega arith) (omega arith) (omega arith) made
