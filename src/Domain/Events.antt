-- ===== src/Domain/Events.antt =====
-- internal/domain/channel_event.go and contact_event.go: what handlers hand to services.
use hermet.Base.{ℕ, String, List}
use hermet.Domain.{ApplicationStatus, UserContactSource}

pub record ChannelCreatedEvent : Type 0 where
  pub channel_type : String
  pub channel_name : String
  pub avatar : String
  pub creator : ℕ
  pub member_ids : List ℕ
  pub created_at : ℕ

pub record ChannelMemberAddedEvent : Type 0 where
  pub cid : ℕ
  pub member_ids : List ℕ
  pub operator : ℕ

pub record ChannelMemberRemovedEvent : Type 0 where
  pub cid : ℕ
  pub member_ids : List ℕ
  pub operator : ℕ

pub record ContactApplicantEvent : Type 0 where
  pub applicant_id : ℕ
  pub target_id : ℕ
  pub message : String
  pub source : UserContactSource

pub record ContactReviewEvent : Type 0 where
  pub application_id : ℕ
  pub status : ApplicationStatus
