-- ===== src/Domain.antt =====
-- internal/domain: the values that services and handlers exchange. The string types of the source
-- stay strings. An `int64` or `int` is kept as its 64-bit pattern: the program copies such values
-- and compares them with 0, and computes with none of them.
pub mod Events
use hermet.Base.{ℕ, String, Bool, true, false, List, [], ◌∷◌, same, ◌==◌, ◌||◌, if◌then◌else◌}

abbrev pub ApplicationStatus : Type 0
ApplicationStatus = String

abbrev pub status_pending : ApplicationStatus
status_pending = "pending"

abbrev pub status_approved : ApplicationStatus
status_approved = "approved"

abbrev pub status_rejected : ApplicationStatus
status_rejected = "rejected"

abbrev pub UserStatus : Type 0
UserStatus = String

abbrev pub user_status_active : UserStatus
user_status_active = "active"

abbrev pub user_status_disabled : UserStatus
user_status_disabled = "disabled"

abbrev pub user_status_deleted : UserStatus
user_status_deleted = "deleted"

abbrev pub UserGender : Type 0
UserGender = String

-- `UserGender.IsValid`
unfoldable pub gender_is_valid : UserGender → Bool
gender_is_valid g = same g "unknown" || same g "male" || same g "female"

abbrev pub UserContactSource : Type 0
UserContactSource = String

-- `UserContactSource.IsValid`
unfoldable pub source_is_valid : UserContactSource → Bool
source_is_valid s = same s "search" || same s "qrcode" || same s "group"

pub record ContactApplication : Type 0 where
  pub id : ℕ
  pub target_id : ℕ
  pub applicant_id : ℕ
  pub applicant_name : String
  pub applicant_avatar : String
  pub application_status : ApplicationStatus
  pub application_message : String
  pub source : UserContactSource
  pub reviewed_at : ℕ
  pub created_at : ℕ
  pub updated_at : ℕ

-- A request to join a channel.
pub record ChannelApplication : Type 0 where
  pub id : ℕ
  pub applicant_id : ℕ
  pub channel_id : ℕ
  pub channel_name : String
  pub channel_avatar : String
  pub application_status : ApplicationStatus
  pub application_message : String
  pub reviewer_id : ℕ
  pub reviewed_at : ℕ
  pub created_at : ℕ
  pub updated_at : ℕ

pub record ChannelMember : Type 0 where
  pub cid : ℕ
  pub uid : ℕ
  pub user_role : String
  pub user_profile_ver : ℕ
  pub avatar : String
  pub alias : String
  pub nickname : String
  pub priority_order : ℕ
  pub mute : Bool
  pub join_at : ℕ

pub record Channel : Type 0 where
  pub id : ℕ
  pub avatar : String
  pub channel_name : String
  pub channel_type : String
  pub self : ChannelMember

pub record ChannelReadRecord : Type 0 where
  pub cid : ℕ
  pub last_message_id : ℕ

-- `ChannelReadRecords.GetLastMessageID`: the first record of the channel, or 0.
unfoldable pub get_last_message_id : List ChannelReadRecord → ℕ → ℕ
get_last_message_id [] cid = 0
get_last_message_id (r ∷ crr) cid =
    if r.cid == cid then r.last_message_id else get_last_message_id crr cid

pub record Message : Type 0 where
  pub id : ℕ
  pub cid : ℕ
  pub sid : ℕ
  pub mid : ℕ
  pub content : List ℕ
  pub content_type : ℕ
  pub send_at : ℕ

pub record BizUser : Type 0 where
  pub id : ℕ
  pub email : String
  pub mobile : String
  pub passwd : String
  pub avatar : String
  pub nickname : String
  pub gender : UserGender
  pub region : String
  pub birthday : ℕ
  pub tagline : String
  pub info_ver : ℕ
  pub user_status : UserStatus
  pub deleted_at : ℕ
  pub created_at : ℕ
  pub updated_at : ℕ

-- `BizUser{}`
abbrev pub zero_biz_user : BizUser
zero_biz_user = record {
  id = 0;
  email = "";
  mobile = "";
  passwd = "";
  avatar = "";
  nickname = "";
  gender = "";
  region = "";
  birthday = 0;
  tagline = "";
  info_ver = 0;
  user_status = "";
  deleted_at = 0;
  created_at = 0;
  updated_at = 0;
}

pub record UserContact : Type 0 where
  pub id : ℕ
  pub user_id : ℕ
  pub contact_id : ℕ
  pub remark_name : String
  pub source : UserContactSource
  pub tags : List String
  pub group_name : String
  pub is_starred : Bool
  pub is_blocked : Bool
  pub added_at : ℕ
  pub deleted_at : ℕ
  pub created_at : ℕ
  pub updated_at : ℕ

-- `UserContact{}`
abbrev pub zero_user_contact : UserContact
zero_user_contact = record {
  id = 0;
  user_id = 0;
  contact_id = 0;
  remark_name = "";
  source = "";
  tags = [];
  group_name = "";
  is_starred = false;
  is_blocked = false;
  added_at = 0;
  deleted_at = 0;
  created_at = 0;
  updated_at = 0;
}
