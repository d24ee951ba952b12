-- ===== src/Providers/Shards.antt =====
-- internal/pkg/providers/shard_helper.go: a shard helper from a configuration.
pub mod Configs
use hermet.Base.{
  ℕ, ◌≡◌, ◌≢◌, ◌↔◌, refl, sym, ap, String, Bool, true, false, some, wrap, Outcome, ok, err, panic,
  pending, arith, ◌==◌, same, same-ne, ne-same,
}
use hermet.Sharding.{Extractor}
use hermet.Sharding.Modulo
use hermet.Sharding.Modulo.{ModuloSharding, new_modulo_sharding}
use hermet.Sharding.Balanced
use hermet.Sharding.Balanced.{BalancedSharding, new_balanced_sharding, mode_round_robin}
use hermet.Sharding.Helper.{IdGenerator, ShardHelper, new_shard_helper}

pub record ShardingConfig : Type 0 where
  pub db_prefix : String
  pub tb_prefix : String
  pub db_shard_count : ℕ
  pub tb_shard_count : ℕ

-- `if err != nil { return nil, fmt.Errorf(text, err) }`
abbrev pub wrap_err {ℓ κ} :
    {A : Type ℓ} {B : Type κ} → String → Outcome A → (A → Outcome B) → Outcome B
wrap_err text (ok a) k = k a
wrap_err text (err e) k = err (wrap text e)
wrap_err text panic k = panic
wrap_err text pending k = pending

-- `newShardHelper`
unfoldable pub shard_helper :
    {S : Type 0} → IdGenerator S → Extractor → ShardingConfig → Outcome (ShardHelper S)
shard_helper gen extractor cfg =
    wrap_err "failed to create modulo sharding: %w"
      (new_modulo_sharding (some extractor) cfg.db_prefix cfg.tb_prefix cfg.db_shard_count
        cfg.tb_shard_count)
      (λ base.
        wrap_err "failed to create balanced sharding: %w"
          (new_balanced_sharding (some (Modulo.as_strategy base)) mode_round_robin)
          (λ strategy.
            wrap_err "failed to create shard helper: %w"
              (new_shard_helper (some gen) (some (Balanced.as_strategy strategy)))
              (λ helper. ok helper)))

abbrev pub modulo_of : Extractor → ShardingConfig → ModuloSharding
modulo_of extractor cfg = record {
  extractor = extractor;
  db_prefix = cfg.db_prefix;
  tb_prefix = cfg.tb_prefix;
  db_shard_count = cfg.db_shard_count;
  tb_shard_count = cfg.tb_shard_count;
}

-- The helper of a configuration.
abbrev pub configured : {S : Type 0} → IdGenerator S → Extractor → ShardingConfig → ShardHelper S
configured gen extractor cfg = record {
  gen = gen;
  strategy =
      Balanced.as_strategy
        (record { base = Modulo.as_strategy (modulo_of extractor cfg); mode = mode_round_robin });
}

module _ {S : Type 0} (gen : IdGenerator S) (extractor : Extractor) (cfg : ShardingConfig) where
  abbrev pub Configured : ShardHelper S → Type 0
  Configured h =
      (cfg.db_shard_count ≢ 0)
      × (cfg.tb_shard_count ≢ 0)
      × (cfg.db_prefix ≢ "")
      × (cfg.tb_prefix ≢ "")
      × (h ≡ configured gen extractor cfg)

  accepted :
      (a b c d : Bool) (h : ShardHelper S)
      → (cfg.db_shard_count == 0) ≡ a
      → (cfg.tb_shard_count == 0) ≡ b
      → same cfg.db_prefix "" ≡ c
      → same cfg.tb_prefix "" ≡ d
      → shard_helper gen extractor cfg ≡ ok h
      → Configured h
  unfolding shard_helper new_modulo_sharding new_balanced_sharding new_shard_helper
  accepted true b c d h ea eb ec ed e = let k = rw ea at e in cc
  accepted false true c d h ea eb ec ed e = let k = rw (ea, eb) at e in cc
  accepted false false true d h ea eb ec ed e = let k = rw (ea, eb, ec) at e in cc
  accepted false false false true h ea eb ec ed e = let k = rw (ea, eb, ec, ed) at e in cc
  accepted false false false false h ea eb ec ed e =
      let k = rw (ea, eb, ec, ed) at e in (ground arith, ground arith, same-ne ec, same-ne ed, cc)

  not_zero : (n : ℕ) → n ≢ 0 → (n == 0) ≡ false
  not_zero n ne = ground arith

  built : (h : ShardHelper S) → Configured h → shard_helper gen extractor cfg ≡ ok h
  unfolding shard_helper new_modulo_sharding new_balanced_sharding new_shard_helper
  built h (nd, nt, pd, pt, e) =
      rw (not_zero cfg.db_shard_count nd, not_zero cfg.tb_shard_count nt, ne-same pd, ne-same pt)
        (ap ok (sym e))

  -- A helper is made exactly for a configuration with databases, tables and both prefixes, and then
  -- its strategy is the modulo strategy of this configuration with round robin broadcasts.
  pub shard_helper-eq-ok :
      (h : ShardHelper S) → (shard_helper gen extractor cfg ≡ ok h) ↔ Configured h
  unfolding shard_helper new_modulo_sharding new_balanced_sharding new_shard_helper
  shard_helper-eq-ok h = (accepted _ _ _ _ h refl refl refl refl, λ c. built h c)

-- The helper finds a shard value where it puts it.
pub configured-coherent :
    {S : Type 0} (gen : IdGenerator S) (extractor : Extractor) (cfg : ShardingConfig) (n : ℕ)
    → (configured gen extractor cfg).strategy.shard n
      ≡ (configured gen extractor cfg).strategy.dst_from_shard_val n
unfolding Modulo.as_strategy Balanced.as_strategy Modulo.shard Modulo.dst_from_shard_val
configured-coherent gen extractor cfg n = refl
