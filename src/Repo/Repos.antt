-- ===== src/Repo/Repos.antt =====
-- internal/repo/biz_user_repo.go, user_contact_repo.go, contact_application_repo.go and
-- channel_application_repo.go: the methods of the repositories over their data access objects.
use hermet.Base.{
  ℕ, String, List, map, Error, is, sentinel, record_not_found, gorm_record_not_found, Exec, check,
  fail, return, ◌>>=◌, if◌then◌else◌,
}
use hermet.Domain.{ApplicationStatus}
use hermet.Domain
use hermet.Dao.BizUser.{BizUserDao}
use hermet.Dao.UserContact.{UserContactDao}
use hermet.Dao.ContactApplication.{ContactApplicationDao}
use hermet.Dao.ChannelApplication.{ChannelApplicationDao}
use hermet.Repo.Convert.{
  user_to_entity, user_to_domain, contact_to_domain, application_to_entity, application_to_domain,
  channel_application_to_entity, channel_application_to_domain,
}

pub record BizUserRepo (S : Type 0) : Type 0 where
  pub save : Domain.BizUser → Exec S Domain.BizUser
  pub find_by_id : ℕ → Exec S Domain.BizUser
  pub find_by_email : String → Exec S Domain.BizUser

pub record UserContactRepo (S : Type 0) : Type 0 where
  pub find_by_user_id_and_contact_id : ℕ → ℕ → Exec S Domain.UserContact

pub record ContactApplicationRepo (S : Type 0) : Type 0 where
  pub save : Domain.ContactApplication → Exec S Domain.ContactApplication
  pub update_status : ℕ → ApplicationStatus → Exec S (Unit {0})
  pub list_pending_by_target_id : ℕ → Exec S (List Domain.ContactApplication)

pub record ChannelApplicationRepo (S : Type 0) : Type 0 where
  pub save : Domain.ChannelApplication → Exec S Domain.ChannelApplication

module _ {S : Type 0} where
  -- The error of the database for a missing row becomes the domain's; others pass.
  abbrev pub to_domain_error : {A : Type 0} → Error → Exec S A
  to_domain_error e =
      if is e gorm_record_not_found then fail (sentinel record_not_found) else fail e

  module _ (dao : BizUserDao S) where
    unfoldable pub save_user : Domain.BizUser → Exec S Domain.BizUser
    save_user user = do entity ← dao.save (user_to_entity user); return (user_to_domain entity)

    unfoldable pub find_user_by_id : ℕ → Exec S Domain.BizUser
    find_user_by_id id =
        check (dao.find_by_id id) to_domain_error (λ entity. return (user_to_domain entity))

    unfoldable pub find_user_by_email : String → Exec S Domain.BizUser
    find_user_by_email email =
        check (dao.find_by_email email) to_domain_error (λ entity. return (user_to_domain entity))

    unfoldable pub default_biz_user_repo : BizUserRepo S
    default_biz_user_repo = record {
      save = save_user;
      find_by_id = find_user_by_id;
      find_by_email = find_user_by_email;
    }

  module _ (dao : UserContactDao S) where
    unfoldable pub find_contact : ℕ → ℕ → Exec S Domain.UserContact
    find_contact user_id contact_id =
        check (dao.find_by_user_id_and_contact_id user_id contact_id) to_domain_error
          (λ entity. return (contact_to_domain entity))

    unfoldable pub default_user_contact_repo : UserContactRepo S
    default_user_contact_repo = record { find_by_user_id_and_contact_id = find_contact }

  module _ (dao : ContactApplicationDao S) where
    unfoldable pub save_application : Domain.ContactApplication → Exec S Domain.ContactApplication
    save_application application = do
      entity ← dao.save (application_to_entity application)
      return (application_to_domain entity)

    unfoldable pub list_pending : ℕ → Exec S (List Domain.ContactApplication)
    list_pending target_id = do
      entities ← dao.list_pending_by_target_id target_id
      return (map application_to_domain entities)

    unfoldable pub default_contact_application_repo : ContactApplicationRepo S
    default_contact_application_repo = record {
      save = save_application;
      update_status = dao.update_status;
      list_pending_by_target_id = list_pending;
    }

  module _ (dao : ChannelApplicationDao S) where
    unfoldable pub save_channel_application :
        Domain.ChannelApplication → Exec S Domain.ChannelApplication
    save_channel_application application = do
      entity ← dao.save (channel_application_to_entity application)
      return (channel_application_to_domain entity)

    unfoldable pub default_channel_application_repo : ChannelApplicationRepo S
    default_channel_application_repo = record { save = save_channel_application }
