-- ===== src/Service/Application/Outcomes.antt =====
-- application_service.go: when an application for a contact is made, and that it is listed then.
use hermet.Base.{
  ◌≡◌, ◌≢◌, ◌⊎◌, inl, inr, refl, true, false, [], ◌==◌, arith, Error, is, sentinel, wrap,
  record_not_found, invalid_param, Outcome, ok, err, check-cases, check-eq-ok, last-eq-ok, Bool,
  errorf, if◌then◌else◌, fail,
}
use hermet.Domain
use hermet.Domain.{status_pending, zero_user_contact}
use hermet.Domain.Events.{ContactApplicantEvent}
use hermet.Service.Application.{
  DefaultApplicationService, application_for, submit, unless_contact, apply_contact,
}

-- The application that is expected of an event: pending, of the applicant with this name and avatar.
abbrev pub pending_application : ContactApplicantEvent → Domain.BizUser → Domain.ContactApplication
pending_application event applicant = record {
  id = 0;
  target_id = event.target_id;
  applicant_id = event.applicant_id;
  applicant_name = applicant.nickname;
  applicant_avatar = applicant.avatar;
  application_status = status_pending;
  application_message = event.message;
  source = event.source;
  reviewed_at = 0;
  created_at = 0;
  updated_at = 0;
}

-- What a call of `ApplyContact` that returned did: the query for a contact found none, the
-- applicant was found, and the application of this user was saved.
pub record Applied {S : Type 0} (svc : DefaultApplicationService S) (event : ContactApplicantEvent)
    (s s' : S) : Type 0 where
  pub s₁ : S
  pub s₂ : S
  pub no_contact :
      ((uc : Domain.UserContact) × (svc.user_contact_repo.find_by_user_id_and_contact_id
            event.applicant_id event.target_id s
          ≡ (ok uc, s₁))
        × (uc.id ≡ 0))
      ⊎ ((e : Error) × (svc.user_contact_repo.find_by_user_id_and_contact_id event.applicant_id
              event.target_id s
            ≡ (err e, s₁))
          × (is e record_not_found ≡ true))
  pub applicant : Domain.BizUser
  pub saved : Domain.ContactApplication
  pub found : svc.biz_user_repo.find_by_id event.applicant_id s₁ ≡ (ok applicant, s₂)
  pub stores :
      svc.contact_application_repo.save (pending_application event applicant) s₂ ≡ (ok saved, s')

module _ {S : Type 0} (svc : DefaultApplicationService S) (event : ContactApplicantEvent) where
  abbrev Submitted : S → S → Type 0
  Submitted s₁ s' =
      (user : Domain.BizUser) × (s₂ : S) × (saved : Domain.ContactApplication)
      × (svc.biz_user_repo.find_by_id event.applicant_id s₁ ≡ (ok user, s₂))
      × (svc.contact_application_repo.save (pending_application event user) s₂ ≡ (ok saved, s'))

  failed_lookup :
      (e : Error) (s₁ : S) {s' : S} (b : Bool)
      → ◌≡◌ {A = Outcome (Unit {0}) × S}
          ((if b then fail (errorf "target user is not exists" []) else fail e) s₁)
          (ok tt, s')
      → ⊥
  failed_lookup e s₁ true h = cc
  failed_lookup e s₁ false h = cc

  submitted : (s₁ s' : S) → submit svc event s₁ ≡ (ok tt, s') → Submitted s₁ s'
  unfolding submit application_for
  submitted s₁ s' h =
      let (user, s₂, e₁, h₁) =
        check-eq-ok (svc.biz_user_repo.find_by_id event.applicant_id) _ _ s₁
          (λ e s₃ k. failed_lookup e s₃ (is e record_not_found) k) h in
      let (saved, e₂, _) =
        last-eq-ok (svc.contact_application_repo.save (application_for event user)) (λ _. tt) s₂
          h₁ in
      (user, s₂, saved, e₁, e₂)

  no_contact :
      (b : Bool) (uc : Domain.UserContact) (s₁ : S) {s' : S}
      → (uc.id == 0) ≡ b
      → unless_contact svc event uc s₁ ≡ (ok tt, s')
      → (uc.id ≡ 0) × Submitted s₁ s'
  unfolding unless_contact
  no_contact true uc s₁ {s'} e h = (ground arith, submitted s₁ s' (rw e at h))
  no_contact false uc s₁ e h = let k = rw e at h in cc

  after_query :
      (b : Bool) (e : Error) (s₁ : S) {s' : S}
      → is e record_not_found ≡ b
      → ◌≡◌ {A = Outcome (Unit {0}) × S}
          ((if b then unless_contact svc event zero_user_contact else fail e) s₁)
          (ok tt, s')
      → (is e record_not_found ≡ true) × Submitted s₁ s'
  after_query true e s₁ r h = (r, (no_contact _ zero_user_contact s₁ refl h).1)
  after_query false e s₁ r h = cc

  -- A call of `ApplyContact` that returned without an error found no contact between the two users
  -- (the repository said that there is none, or gave one with the id 0), found the applicant, and
  -- saved one application: pending, from this applicant, with the applicant's name and avatar, to the
  -- target with the message and the source of the event.
  pub apply_contact-Applied :
      (s s' : S) → apply_contact svc event s ≡ (ok tt, s') → Applied svc event s s'
  unfolding apply_contact
  apply_contact-Applied s s' h =
      elim (check-cases
        (svc.user_contact_repo.find_by_user_id_and_contact_id event.applicant_id event.target_id) _
        _ s h) [
          | inl (uc, s₁, e, k) ↦
              let (z, (user, s₂, saved, e₁, e₂)) = no_contact _ uc s₁ refl k in
              record {
                s₁ = s₁;
                s₂ = s₂;
                no_contact = inl (uc, e, z);
                applicant = user;
                saved = saved;
                found = e₁;
                stores = e₂;
              }
          | inr (x, s₁, e, k) ↦
              let (r, (user, s₂, saved, e₁, e₂)) = after_query _ x s₁ refl k in
              record {
                s₁ = s₁;
                s₂ = s₂;
                no_contact = inr (x, e, r);
                applicant = user;
                saved = saved;
                found = e₁;
                stores = e₂;
              }
        ]

  -- Where the repository finds a contact with an id, the answer is the error for an invalid
  -- parameter, and nothing is done after the query.
  pub apply_contact-duplicate :
      (uc : Domain.UserContact) (s s₁ : S)
      → svc.user_contact_repo.find_by_user_id_and_contact_id event.applicant_id event.target_id s
        ≡ (ok uc, s₁)
      → uc.id ≢ 0
      → apply_contact svc event s
        ≡ (err (wrap "%w: contact already exists" (sentinel invalid_param)), s₁)
  unfolding apply_contact unless_contact
  apply_contact-duplicate uc s s₁ e ne = rw e (ground arith)
