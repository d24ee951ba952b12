-- ===== src/Dao/BizUser.antt =====
-- internal/repo/dao/biz_user_dao.go. A user is placed by a hash of the email.
pub mod Finds
use hermet.Base.{
  ℕ, String, Bool, ◌&&◌, List, [], ◌∷◌, same, ◌==◌, if◌then◌else◌, Error, errorf, Outcome, Exec,
  check, fail, return, ◌>>=◌,
}
use hermet.Base.Decimal.{decimal}
use hermet.Sharding.{Dst}
use hermet.Sharding.Sharder.{text}
use hermet.Sharding.Helper.{next_id_and_shard, dst_from_id, dst_from_sharder}
use hermet.Dao.Entities.{BizUser}
use hermet.Dao.Gorm.{Sharded, with_db}

-- `BizUserDao`
pub record BizUserDao (S : Type 0) : Type 0 where
  pub save : BizUser → Exec S BizUser
  pub find_by_id : ℕ → Exec S BizUser
  pub find_by_email : String → Exec S BizUser

-- `Where("id = ?", id).Where("deleted_at = 0")`, and the same with the email
abbrev pub has_id : ℕ → BizUser → Bool
has_id id r = r.id == id && r.deleted_at == 0

abbrev pub has_email : String → BizUser → Bool
has_email email r = same r.email email && r.deleted_at == 0

module _ {S : Type 0} (d : Sharded S BizUser) where
  -- The row in the place that the helper chose.
  unfoldable pub put : BizUser → ℕ × Dst → Exec S BizUser
  put user (id, dst) = do
    now ← d.now
    let row = record user { id = id; created_at = now; updated_at = now }
    with_db (d.dbs dst.db) dst.db (λ db. d.gorm.create db dst.tb row)

  unfoldable pub save : BizUser → Exec S BizUser
  save user =
      check (next_id_and_shard d.sum64 d.shard_helper (text user.email))
        (λ _. fail (errorf "failed to get shard destination from email [ %s ]" (user.email ∷ [])))
        (put user)

  unfoldable pub find_by_id : ℕ → Exec S BizUser
  find_by_id id =
      check (dst_from_id d.shard_helper id)
        (λ _. fail (errorf "failed to get shard destination from id [ %d ]" (decimal id ∷ [])))
        (λ dst. with_db (d.dbs dst.db) dst.db (λ db. d.gorm.first db dst.tb (has_id id)))

  unfoldable pub find_by_email : String → Exec S BizUser
  find_by_email email =
      check (dst_from_sharder d.sum64 d.shard_helper (text email))
        (λ _. fail (errorf "failed to get shard destination from email [ %s ]" (email ∷ [])))
        (λ dst. with_db (d.dbs dst.db) dst.db (λ db. d.gorm.first db dst.tb (has_email email)))

  unfoldable pub biz_user_dao : BizUserDao S
  biz_user_dao = record { save = save; find_by_id = find_by_id; find_by_email = find_by_email }
