-- ===== src/Api/Contact/Guards.antt =====
-- contact_handler.go: which applications get to the service.
use hermet.Base.{
  ◌≡◌, ◌≢◌, refl, sym, Bool, true, false, List, ◌==◌, arith, if◌then◌else◌, wrap, sentinel,
  invalid_param, Outcome, ok, fail, return, ◌>>=◌, last-eq-ok,
}
use hermet.Domain.{source_is_valid}
use hermet.Web.{R, ContextUser}
use hermet.Service.Application.{ApplicationService}
use hermet.Api.Contact.{ApplyContactReq, GetApplicationsResp, event_for, plain_ok, apply_contact}

-- What a call of the handler that returned did.
pub record Passed {S : Type 0} (svc : ApplicationService S) (req : ApplyContactReq)
    (au : ContextUser) (s s' : S) (r : R (List GetApplicationsResp)) : Type 0 where
  pub not_self : req.contact_id ≢ au.uid
  pub valid_source : source_is_valid req.source ≡ true
  pub applied : svc.apply_contact (event_for req au) s ≡ (ok tt, s')
  pub plain : r ≡ plain_ok

module _ {S : Type 0} (svc : ApplicationService S) (req : ApplyContactReq) (au : ContextUser)
    (s s' : S) (r : R (List GetApplicationsResp)) where
  by_source :
      (v : Bool)
      → source_is_valid req.source ≡ v
      → req.contact_id ≢ au.uid
      → ◌≡◌ {A = Outcome (R (List GetApplicationsResp)) × S}
          ((if v
              then (svc.apply_contact (event_for req au) >>= (λ _. return plain_ok))
              else fail (wrap "%w: invalid source" (sentinel invalid_param)))
            s)
          (ok r, s')
      → Passed svc req au s s' r
  by_source true v ne h =
      let (_, e, k) = last-eq-ok (svc.apply_contact (event_for req au)) (λ _. plain_ok) s h in
      record { not_self = ne; valid_source = v; applied = e; plain = sym k }
  by_source false v ne h = cc

  by_self :
      (b : Bool)
      → (req.contact_id == au.uid) ≡ b
      → ◌≡◌ {A = Outcome (R (List GetApplicationsResp)) × S}
          ((if b
              then fail (wrap "%w: can not add self as contact" (sentinel invalid_param))
              else if source_is_valid req.source
              then (svc.apply_contact (event_for req au) >>= (λ _. return plain_ok))
              else fail (wrap "%w: invalid source" (sentinel invalid_param)))
            s)
          (ok r, s')
      → Passed svc req au s s' r
  by_self true b h = cc
  by_self false b h = by_source _ refl (ground arith) h

  -- A call of the handler that returned without an error was for another user than the caller and
  -- with a known source, the service's call for the caller as the applicant returned, and the
  -- answer holds no data.
  pub apply_contact-Passed : apply_contact svc req au s ≡ (ok r, s') → Passed svc req au s s' r
  unfolding apply_contact
  apply_contact-Passed h = by_self _ refl h
