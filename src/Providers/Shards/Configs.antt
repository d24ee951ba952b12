-- ===== src/Providers/Shards/Configs.antt =====
-- internal/pkg/providers/shard_helper.go: the generator and the extractor, and the four helpers, each
-- from its own key of the configuration; with what the data access objects rely on.
use hermet.Base.{
  ℕ, ◌≡◌, ◌≢◌, ◌<◌, ◌*◌, ◌%◌, ◌^◌, refl, sym, ◌∙◌, subst, String, Outcome, ok, then_do,
  then_do-eq-ok, arith,
}
use hermet.Snowflake
use hermet.Snowflake.{Generator, Machine, new_generator, extract_shard_val}
use hermet.Snowflake.Calls.{IsValid}
use hermet.Sharding.{Dst, Extractor}
use hermet.Sharding.Sharder.{Hash, Sharder}
use hermet.Sharding.Modulo
use hermet.Sharding.Balanced
use hermet.Sharding.Helper.{IdGenerator, ShardHelper, next_id_and_shard, dst_from_id}
use hermet.Sharding.Helper.Consistency.{dst_from_id-next_id_and_shard}
use hermet.Providers.Shards.{
  ShardingConfig, modulo_of, shard_helper, configured, shard_helper-eq-ok,
}

-- `idGenFxResult`
pub record IdGen (S : Type 0) : Type 0 where
  pub gen : IdGenerator S
  pub extractor : Extractor

-- `newIDGen`; the generator of snowflake works on the state `new_generator`.
unfoldable pub new_id_gen : Outcome (IdGen Machine)
new_id_gen = ok (record { gen = Snowflake.next_id; extractor = extract_shard_val })

-- What viper reads under a key.
module _ {S : Type 0} (unmarshal_key : String → Outcome ShardingConfig) (gen : IdGenerator S)
    (extractor : Extractor) where
  unfoldable pub channel_application_shard_helper : Outcome (ShardHelper S)
  channel_application_shard_helper =
      then_do (unmarshal_key "sharding.channel_application") (shard_helper gen extractor)

  unfoldable pub biz_user_shard_helper : Outcome (ShardHelper S)
  biz_user_shard_helper = then_do (unmarshal_key "sharding.biz_user") (shard_helper gen extractor)

  unfoldable pub contact_application_shard_helper : Outcome (ShardHelper S)
  contact_application_shard_helper =
      then_do (unmarshal_key "sharding.contact_application") (shard_helper gen extractor)

  unfoldable pub user_contact_shard_helper : Outcome (ShardHelper S)
  user_contact_shard_helper =
      then_do (unmarshal_key "sharding.user_contact") (shard_helper gen extractor)

  -- The four providers, with the key that each reads.
  pub data Provider : Outcome (ShardHelper S) → String → Type 0 where
    channel_applications : Provider channel_application_shard_helper "sharding.channel_application"
    biz_users : Provider biz_user_shard_helper "sharding.biz_user"
    contact_applications : Provider contact_application_shard_helper "sharding.contact_application"
    user_contacts : Provider user_contact_shard_helper "sharding.user_contact"

  Provider-read :
      {p : Outcome (ShardHelper S)} {key : String}
      → Provider p key
      → p ≡ then_do (unmarshal_key key) (shard_helper gen extractor)
  unfolding channel_application_shard_helper biz_user_shard_helper contact_application_shard_helper
      user_contact_shard_helper
  Provider-read channel_applications = refl
  Provider-read biz_users = refl
  Provider-read contact_applications = refl
  Provider-read user_contacts = refl

  provided :
      {p : Outcome (ShardHelper S)} {key : String} (from : Provider p key) (h : ShardHelper S)
      (cfg : ShardingConfig)
      → p ≡ ok h
      → unmarshal_key key ≡ ok cfg
      → (cfg.db_shard_count ≢ 0) × (cfg.tb_shard_count ≢ 0) × (h ≡ configured gen extractor cfg)
  provided {p} {key} from h cfg e r =
      let (c, ec, hc) = then_do-eq-ok (unmarshal_key key) _ (sym (Provider-read from) ∙ e) in
      let same : c ≡ cfg = cc in
      let (d, t, _, _, made) = (shard_helper-eq-ok gen extractor cfg h).0 (rw same at hc) in
      (d, t, made)

module _ (unmarshal_key : String → Outcome ShardingConfig) (sum64 : Hash) where
  -- A helper that one of the four providers made over the snowflake generator and extractor, from a
  -- configuration whose counts have a product that fits uint64 and divides 1024: each id that
  -- `NextIDAndShard` returned, from a valid state of the generator, leads `DstFromID` back to the
  -- destination that was returned with it.
  pub provided-leads_back :
      {p : Outcome (ShardHelper Machine)} {key : String}
      (from : Provider unmarshal_key Snowflake.next_id extract_shard_val p key)
      (h : ShardHelper Machine) (cfg : ShardingConfig) (x : Sharder) (m m' : Machine) (id : ℕ)
      (dst : Dst)
      → p ≡ ok h
      → unmarshal_key key ≡ ok cfg
      → cfg.db_shard_count * cfg.tb_shard_count < 2 ^ 64
      → 1024 % (cfg.db_shard_count * cfg.tb_shard_count) ≡ 0
      → IsValid m
      → next_id_and_shard sum64 h x m ≡ (ok (id, dst), m')
      → dst_from_id h id m' ≡ (ok dst, m')
  unfolding next_id_and_shard dst_from_id Balanced.as_strategy Modulo.as_strategy
  provided-leads_back from h cfg x m m' id dst e r fits divides valid made =
      let (d, t, same) =
        provided unmarshal_key Snowflake.next_id extract_shard_val from h cfg e r in
      subst (λ y. dst_from_id y id m' ≡ (ok dst, m')) (sym same)
        (dst_from_id-next_id_and_shard sum64 (modulo_of extract_shard_val cfg)
          (record { dbs = omega (arith, d); tbs = omega (arith, t); product = fits }) (λ i. refl) x
          m m' id dst valid divides (rw same at made))
