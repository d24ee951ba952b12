-- ===== src/Service/Application.antt =====
-- internal/service/application_service.go
pub mod Outcomes
pub mod Listed
use hermet.Base.{
  ℕ, String, List, [], same, ◌==◌, if◌then◌else◌, Error, is, sentinel, errorf, wrap,
  record_not_found, invalid_param, Outcome, panic, Exec, check, fail, return, lift, ◌>>=◌,
}
use hermet.Domain
use hermet.Domain.{status_pending, status_approved, status_rejected, zero_user_contact}
use hermet.Domain.Events.{ContactApplicantEvent, ContactReviewEvent}
use hermet.Repo.Repos.{BizUserRepo, UserContactRepo, ContactApplicationRepo, ChannelApplicationRepo}

-- `ApplicationService`
pub record ApplicationService (S : Type 0) : Type 0 where
  pub apply_contact : ContactApplicantEvent → Exec S (Unit {0})
  pub review_contact_application : ContactReviewEvent → Exec S (Unit {0})
  pub get_contact_applications : ℕ → Exec S (List Domain.ContactApplication)

pub record DefaultApplicationService (S : Type 0) : Type 0 where
  pub biz_user_repo : BizUserRepo S
  pub user_contact_repo : UserContactRepo S
  pub contact_application_repo : ContactApplicationRepo S
  pub channel_application_repo : ChannelApplicationRepo S

-- The application that is saved for an event and the applicant.
unfoldable pub application_for : ContactApplicantEvent → Domain.BizUser → Domain.ContactApplication
application_for event biz_user = record {
  id = 0;
  target_id = event.target_id;
  applicant_id = event.applicant_id;
  applicant_name = biz_user.nickname;
  applicant_avatar = biz_user.avatar;
  application_status = status_pending;
  application_message = event.message;
  source = event.source;
  reviewed_at = 0;
  created_at = 0;
  updated_at = 0;
}

module _ {S : Type 0} (s : DefaultApplicationService S) where
  -- From "query the applicant" on.
  unfoldable pub submit : ContactApplicantEvent → Exec S (Unit {0})
  submit event =
      check (s.biz_user_repo.find_by_id event.applicant_id)
        (λ e.
          if is e record_not_found then fail (errorf "target user is not exists" []) else fail e)
        (λ biz_user. do
          saved ← s.contact_application_repo.save (application_for event biz_user)
          return tt)

  unfoldable pub unless_contact : ContactApplicantEvent → Domain.UserContact → Exec S (Unit {0})
  unless_contact event uc =
      if uc.id == 0
      then submit event
      else fail (wrap "%w: contact already exists" (sentinel invalid_param))

  -- Beside `ErrRecordNotFound` the contact is the zero value.
  unfoldable pub apply_contact : ContactApplicantEvent → Exec S (Unit {0})
  apply_contact event =
      check (s.user_contact_repo.find_by_user_id_and_contact_id event.applicant_id event.target_id)
        (λ e. if is e record_not_found then unless_contact event zero_user_contact else fail e)
        (unless_contact event)

  -- Both are not implemented: they panic.
  unfoldable pub reject_contact_application : ℕ → Exec S (Unit {0})
  reject_contact_application id = lift panic

  unfoldable pub approve_contact_application : ℕ → Exec S (Unit {0})
  approve_contact_application id = lift panic

  abbrev review_failed : Exec S (Unit {0}) → Exec S (Unit {0})
  review_failed m =
      check m (λ e. fail (wrap "failed to review contact application: %w" e)) (λ _. return tt)

  unfoldable pub review_contact_application : ContactReviewEvent → Exec S (Unit {0})
  review_contact_application event =
      if same event.status status_rejected
      then review_failed (reject_contact_application event.application_id)
      else if same event.status status_approved
      then review_failed (approve_contact_application event.application_id)
      else fail (wrap "%w: invalid status" (sentinel invalid_param))

  unfoldable pub get_contact_applications : ℕ → Exec S (List Domain.ContactApplication)
  get_contact_applications target_id =
      s.contact_application_repo.list_pending_by_target_id target_id

  unfoldable pub default_application_service : ApplicationService S
  default_application_service = record {
    apply_contact = apply_contact;
    review_contact_application = review_contact_application;
    get_contact_applications = get_contact_applications;
  }
