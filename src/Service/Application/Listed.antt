-- ===== src/Service/Application/Listed.antt =====
-- application_service.go over contact_application_repo.go and contact_application_dao.go: an
-- application that was made is in the list that its target gets.
use mathlib.Core.List.{Perm}
use mathlib.Core.List.Perm
use hermet.Base.{subst, ℕ, ◌≡◌, refl, List, ◌∷◌, map, ok, last-eq-ok}
use hermet.Domain
use hermet.Domain.Events.{ContactApplicantEvent}
use hermet.Dao.Entities
use hermet.Dao.Gorm.{Sharded, Reliable}
use hermet.Dao.ContactApplication.{contact_application_dao, save, list_pending_by_target_id}
use hermet.Dao.ContactApplication.Lists.{list_pending-save}
use hermet.Repo.Convert.{application_to_entity, application_to_domain}
use hermet.Repo.Repos.{default_contact_application_repo, save_application, list_pending}
use hermet.Service.Application.{DefaultApplicationService, apply_contact, get_contact_applications}
use hermet.Service.Application.Outcomes.{pending_application, apply_contact-Applied}

-- The service, with the repository of applications over the data access object.
abbrev pub over_dao :
    {S : Type 0}
    → DefaultApplicationService S
    → Sharded S Entities.ContactApplication
    → DefaultApplicationService S
over_dao svc d = record svc {
  contact_application_repo = default_contact_application_repo (contact_application_dao d);
}

-- The application of `ApplyContact` as the list shows it.
abbrev pub listed : ContactApplicantEvent → Domain.BizUser → ℕ → ℕ → Domain.ContactApplication
listed event applicant id at = record (pending_application event applicant) {
  id = id;
  created_at = at;
  updated_at = at;
}

-- The list holds, at some place, the application of an event, made with the user that the
-- repository has for the applicant.
abbrev pub Holds :
    {S : Type 0}
    → DefaultApplicationService S
    → ContactApplicantEvent
    → List Domain.ContactApplication
    → Type 0
Holds {S} svc event l =
    (applicant : Domain.BizUser) × (s₁ : S) × (s₂ : S) × (id : ℕ) × (at : ℕ) × (others : List
      Domain.ContactApplication)
    × (svc.biz_user_repo.find_by_id event.applicant_id s₁ ≡ (ok applicant, s₂))
    × Perm l (listed event applicant id at ∷ others)

module _ {S : Type 0} (svc : DefaultApplicationService S)
    (d : Sharded S Entities.ContactApplication)
    (coherent : (n : ℕ)
      → d.shard_helper.strategy.shard n ≡ d.shard_helper.strategy.dst_from_shard_val n)
    (rel : Reliable d.gorm) where
  -- With a strategy that finds a shard value where it puts it, and a database that does what gorm
  -- documents: once `ApplyContact` returned without an error, the list that
  -- `GetContactApplications` then returns for the target holds a pending application with the ids
  -- of the applicant and the target, the message and the source of the event, and the name and the
  -- avatar of the user that the repository gave for the applicant's id.
  pub get_contact_applications-apply_contact :
      (event : ContactApplicantEvent) (l : List Domain.ContactApplication) (s s' s'' : S)
      → apply_contact (over_dao svc d) event s ≡ (ok tt, s')
      → get_contact_applications (over_dao svc d) event.target_id s' ≡ (ok l, s'')
      → Holds svc event l
  unfolding get_contact_applications default_contact_application_repo contact_application_dao
      save_application list_pending application_to_entity application_to_domain
  get_contact_applications-apply_contact event l s s' s'' e f =
      let x = apply_contact-Applied (over_dao svc d) event s s' e in
      let (row, saved, _) =
        last-eq-ok (save d (application_to_entity (pending_application event x.applicant)))
          application_to_domain x.s₂ x.stores in
      let (rows, found, shown) =
        last-eq-ok (list_pending_by_target_id d event.target_id) (map application_to_domain) s' f in
      let (id, at, before, made, held) =
        list_pending-save d coherent rel
          (application_to_entity (pending_application event x.applicant)) row rows x.s₂ s' s'' refl
          saved found in
      (
        x.applicant,
        x.s₁,
        x.s₂,
        id,
        at,
        map application_to_domain before,
        x.found,
        subst (λ k. Perm k (listed event x.applicant id at ∷ map application_to_domain before))
            shown
            (subst
              (λ r.
                Perm (map application_to_domain rows)
                  (application_to_domain r ∷ map application_to_domain before))
              made (Perm.map application_to_domain held)),
      )
