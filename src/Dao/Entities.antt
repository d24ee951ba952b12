-- ===== src/Dao/Entities.antt =====
-- internal/repo/dao: the rows of the tables, one record for each entity.
use hermet.Base.{ℕ, String, Bool, List, Option}

pub record BizUser : Type 0 where
  pub id : ℕ
  pub email : String
  pub mobile : String
  pub passwd : String
  pub nickname : String
  pub avatar : String
  pub gender : String
  pub region : String
  pub birthday : ℕ
  pub tagline : String
  pub info_ver : ℕ
  pub user_status : String
  pub deleted_at : ℕ
  pub created_at : ℕ
  pub updated_at : ℕ

pub record UserContact : Type 0 where
  pub id : ℕ
  pub user_id : ℕ
  pub contact_id : ℕ
  pub remark_name : String
  pub source : String
  pub tags : List String
  pub group_name : String
  pub is_starred : Bool
  pub is_blocked : Bool
  pub added_at : ℕ
  pub deleted_at : ℕ
  pub created_at : ℕ
  pub updated_at : ℕ

pub record ContactApplication : Type 0 where
  pub id : ℕ
  pub target_id : ℕ
  pub applicant_id : ℕ
  pub applicant_name : String
  pub applicant_avatar : String
  pub application_status : String
  pub application_message : String
  pub source : String
  pub reviewed_at : ℕ
  pub created_at : ℕ
  pub updated_at : ℕ

pub record ChannelApplication : Type 0 where
  pub id : ℕ
  pub applicant_id : ℕ
  pub channel_id : ℕ
  pub channel_name : String
  pub channel_avatar : String
  pub application_status : String
  pub application_message : String
  pub reviewer_id : ℕ
  pub reviewed_at : ℕ
  pub created_at : ℕ
  pub updated_at : ℕ

pub record Message : Type 0 where
  pub id : ℕ
  pub cid : ℕ
  pub sid : ℕ
  pub mid : String
  pub content : List ℕ
  pub content_type : ℕ
  pub send_at : ℕ

-- `Avatar` and `ChannelName` are `sql.NullString`: null is `none`.
pub record Channel : Type 0 where
  pub id : ℕ
  pub avatar : Option String
  pub channel_name : Option String
  pub channel_type : String
  pub channel_status : String
  pub creator : ℕ
  pub create_at : ℕ
  pub update_at : ℕ
