-- ===== src/Dao/ChannelApplication.antt =====
-- internal/repo/dao/channel_application_dao.go. An application is placed by the id of its channel.
use hermet.Base.{ℕ, [], ◌∷◌, errorf, Exec, check, fail, ◌>>=◌}
use hermet.Base.Decimal.{decimal}
use hermet.Sharding.{Dst}
use hermet.Sharding.Sharder.{single_id}
use hermet.Sharding.Helper.{next_id_and_shard}
use hermet.Dao.Entities.{ChannelApplication}
use hermet.Dao.Gorm.{Sharded, with_db}

-- `ChannelApplicationDao`
pub record ChannelApplicationDao (S : Type 0) : Type 0 where
  pub save : ChannelApplication → Exec S ChannelApplication

module _ {S : Type 0} (d : Sharded S ChannelApplication) where
  unfoldable pub put : ChannelApplication → ℕ × Dst → Exec S ChannelApplication
  put ca (id, dst) = do
    now ← d.now
    let row = record ca { id = id; created_at = now; updated_at = now }
    with_db (d.dbs dst.db) dst.db (λ db. d.gorm.create db dst.tb row)

  unfoldable pub save : ChannelApplication → Exec S ChannelApplication
  save ca =
      check (next_id_and_shard d.sum64 d.shard_helper (single_id ca.channel_id))
        (λ _. fail (
          errorf "failed to get shard destination from channel id [ %d ]"
            (decimal ca.channel_id ∷ [])))
        (put ca)

  unfoldable pub channel_application_dao : ChannelApplicationDao S
  channel_application_dao = record { save = save }
