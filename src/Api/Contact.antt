-- ===== src/Api/Contact.antt =====
-- internal/api/contact_handler.go
pub mod Guards
use hermet.Base.{
  ℕ, String, Option, none, some, List, map, ◌==◌, if◌then◌else◌, wrap, sentinel, invalid_param,
  panic, Exec, fail, lift, return, ◌>>=◌,
}
use hermet.Domain
use hermet.Domain.{source_is_valid}
use hermet.Domain.Events.{ContactApplicantEvent}
use hermet.Web.{R, ContextUser, status_ok}
use hermet.Service.Application.{ApplicationService}

pub record ApplyContactReq : Type 0 where
  pub contact_id : ℕ
  pub message : String
  pub source : String

pub record ReviewApplicationReq : Type 0 where
  pub application_id : ℕ
  pub status : String

pub record GetApplicationsResp : Type 0 where
  pub id : ℕ
  pub applicant_id : ℕ
  pub applicant_name : String
  pub applicant_avatar : String
  pub application_message : String
  pub source : String
  pub created_at : ℕ

unfoldable pub event_for : ApplyContactReq → ContextUser → ContactApplicantEvent
event_for req au = record {
  applicant_id = au.uid;
  target_id = req.contact_id;
  message = req.message;
  source = req.source;
}

unfoldable pub to_resp : Domain.ContactApplication → GetApplicationsResp
to_resp a = record {
  id = a.id;
  applicant_id = a.applicant_id;
  applicant_name = a.applicant_name;
  applicant_avatar = a.applicant_avatar;
  application_message = a.application_message;
  source = a.source;
  created_at = a.created_at;
}

abbrev pub plain_ok : R (List GetApplicationsResp)
plain_ok = record { code = status_ok; msg = ""; payload = none }

module _ {S : Type 0} (application_svc : ApplicationService S) where
  unfoldable pub apply_contact :
      ApplyContactReq → ContextUser → Exec S (R (List GetApplicationsResp))
  unfolding event_for
  apply_contact req au =
      if req.contact_id == au.uid
      then fail (wrap "%w: can not add self as contact" (sentinel invalid_param))
      else if source_is_valid req.source
      then (do applied ← application_svc.apply_contact (event_for req au); return plain_ok)
      else fail (wrap "%w: invalid source" (sentinel invalid_param))

  -- Not implemented: it panics.
  unfoldable pub review_application :
      ReviewApplicationReq → ContextUser → Exec S (R (List GetApplicationsResp))
  review_application req au = lift panic

  unfoldable pub get_applications : ContextUser → Exec S (R (List GetApplicationsResp))
  get_applications au = do
    applications ← application_svc.get_contact_applications au.uid
    return (record { code = status_ok; msg = ""; payload = some (map to_resp applications) })
