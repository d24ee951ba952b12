-- ===== src/Dao/ContactApplication.antt =====
-- internal/repo/dao/contact_application_dao.go. An application is placed by the id of its target.
pub mod Lists
use hermet.Base.{
  ℕ, String, Bool, ◌&&◌, List, [], ◌∷◌, same, ◌==◌, errorf, Exec, check, fail, return, ◌>>=◌,
}
use hermet.Base.Decimal.{decimal}
use hermet.Sharding.{Dst}
use hermet.Sharding.Sharder.{single_id}
use hermet.Sharding.Helper.{next_id_and_shard, dst_from_id, dst_from_sharder}
use hermet.Domain.{ApplicationStatus, status_pending}
use hermet.Dao.Entities.{ContactApplication}
use hermet.Dao.Gorm.{Sharded, with_db}

-- `ContactApplicationDao`
pub record ContactApplicationDao (S : Type 0) : Type 0 where
  pub save : ContactApplication → Exec S ContactApplication
  pub update_status : ℕ → ApplicationStatus → Exec S (Unit {0})
  pub list_pending_by_target_id : ℕ → Exec S (List ContactApplication)

abbrev pub is_pending_for : ℕ → ContactApplication → Bool
is_pending_for target_id r = r.target_id == target_id && same r.application_status status_pending

module _ {S : Type 0} (d : Sharded S ContactApplication) where
  unfoldable pub put : ContactApplication → ℕ × Dst → Exec S ContactApplication
  put ca (id, dst) = do
    now ← d.now
    let row = record ca { id = id; created_at = now; updated_at = now }
    with_db (d.dbs dst.db) dst.db (λ db. d.gorm.create db dst.tb row)

  unfoldable pub save : ContactApplication → Exec S ContactApplication
  save ca = do made ← next_id_and_shard d.sum64 d.shard_helper (single_id ca.target_id); put ca made

  unfoldable pub update_status : ℕ → ApplicationStatus → Exec S (Unit {0})
  update_status application_id status =
      check (dst_from_id d.shard_helper application_id)
        (λ _.
          fail
            (errorf "failed to get shard destination from id [ %d ]" (decimal application_id ∷ [])))
        (λ dst. with_db (d.dbs dst.db) dst.db (λ db.
          d.gorm.update db dst.tb (λ r. r.id == application_id)
            (λ r. record r { application_status = status })))

  unfoldable pub list_pending_by_target_id : ℕ → Exec S (List ContactApplication)
  list_pending_by_target_id target_id = do
    dst ← dst_from_sharder d.sum64 d.shard_helper (single_id target_id)
    with_db (d.dbs dst.db) dst.db (λ db. d.gorm.find db dst.tb (is_pending_for target_id))

  unfoldable pub contact_application_dao : ContactApplicationDao S
  contact_application_dao = record {
    save = save;
    update_status = update_status;
    list_pending_by_target_id = list_pending_by_target_id;
  }
