-- ===== src/Dao/UserContact.antt =====
-- internal/repo/dao/user_contact_dao.go. A contact is placed by the id of its user.
use hermet.Base.{
  ℕ, Bool, ◌&&◌, Option, none, some, ◌==◌, wrap, sentinel, record_not_found, Exec, fail, ◌>>=◌,
}
use hermet.Sharding.Sharder.{single_id}
use hermet.Sharding.Helper.{dst_from_sharder}
use hermet.Dao.Entities.{UserContact}
use hermet.Dao.Gorm.{Db, Sharded}

-- `UserContactDao`
pub record UserContactDao (S : Type 0) : Type 0 where
  pub find_by_user_id_and_contact_id : ℕ → ℕ → Exec S UserContact

abbrev pub is_contact : ℕ → ℕ → UserContact → Bool
is_contact user_id contact_id r =
    r.user_id == user_id && r.contact_id == contact_id && r.deleted_at == 0

-- Here a missing database counts as a missing record.
abbrev pub or_not_found : {S : Type 0} → Option Db → (Db → Exec S UserContact) → Exec S UserContact
or_not_found none k = fail (wrap "database not found: %w" (sentinel record_not_found))
or_not_found (some db) k = k db

module _ {S : Type 0} (d : Sharded S UserContact) where
  unfoldable pub find_by_user_id_and_contact_id : ℕ → ℕ → Exec S UserContact
  find_by_user_id_and_contact_id user_id contact_id = do
    dst ← dst_from_sharder d.sum64 d.shard_helper (single_id user_id)
    or_not_found (d.dbs dst.db) (λ db. d.gorm.first db dst.tb (is_contact user_id contact_id))

  unfoldable pub user_contact_dao : UserContactDao S
  user_contact_dao = record { find_by_user_id_and_contact_id = find_by_user_id_and_contact_id }
