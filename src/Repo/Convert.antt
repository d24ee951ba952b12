-- ===== src/Repo/Convert.antt =====
-- internal/repo: `toEntity` and `toDomain` of the repositories, field by field, and that what a
-- repository hands down comes back as it was.
use hermet.Base.{◌≡◌, refl}
use hermet.Domain
use hermet.Dao.Entities

unfoldable pub user_to_entity : Domain.BizUser → Entities.BizUser
user_to_entity x = record {
  id = x.id;
  email = x.email;
  mobile = x.mobile;
  passwd = x.passwd;
  nickname = x.nickname;
  avatar = x.avatar;
  gender = x.gender;
  region = x.region;
  birthday = x.birthday;
  tagline = x.tagline;
  info_ver = x.info_ver;
  user_status = x.user_status;
  deleted_at = x.deleted_at;
  created_at = x.created_at;
  updated_at = x.updated_at;
}

unfoldable pub user_to_domain : Entities.BizUser → Domain.BizUser
user_to_domain x = record {
  id = x.id;
  email = x.email;
  mobile = x.mobile;
  passwd = x.passwd;
  avatar = x.avatar;
  nickname = x.nickname;
  gender = x.gender;
  region = x.region;
  birthday = x.birthday;
  tagline = x.tagline;
  info_ver = x.info_ver;
  user_status = x.user_status;
  deleted_at = x.deleted_at;
  created_at = x.created_at;
  updated_at = x.updated_at;
}

unfoldable pub contact_to_domain : Entities.UserContact → Domain.UserContact
contact_to_domain x = record {
  id = x.id;
  user_id = x.user_id;
  contact_id = x.contact_id;
  remark_name = x.remark_name;
  source = x.source;
  tags = x.tags;
  group_name = x.group_name;
  is_starred = x.is_starred;
  is_blocked = x.is_blocked;
  added_at = x.added_at;
  deleted_at = x.deleted_at;
  created_at = x.created_at;
  updated_at = x.updated_at;
}

unfoldable pub application_to_entity : Domain.ContactApplication → Entities.ContactApplication
application_to_entity x = record {
  id = x.id;
  target_id = x.target_id;
  applicant_id = x.applicant_id;
  applicant_name = x.applicant_name;
  applicant_avatar = x.applicant_avatar;
  application_status = x.application_status;
  application_message = x.application_message;
  source = x.source;
  reviewed_at = x.reviewed_at;
  created_at = x.created_at;
  updated_at = x.updated_at;
}

unfoldable pub application_to_domain : Entities.ContactApplication → Domain.ContactApplication
application_to_domain x = record {
  id = x.id;
  target_id = x.target_id;
  applicant_id = x.applicant_id;
  applicant_name = x.applicant_name;
  applicant_avatar = x.applicant_avatar;
  application_status = x.application_status;
  application_message = x.application_message;
  source = x.source;
  reviewed_at = x.reviewed_at;
  created_at = x.created_at;
  updated_at = x.updated_at;
}

unfoldable pub channel_application_to_entity :
    Domain.ChannelApplication → Entities.ChannelApplication
channel_application_to_entity x = record {
  id = x.id;
  applicant_id = x.applicant_id;
  channel_id = x.channel_id;
  channel_name = x.channel_name;
  channel_avatar = x.channel_avatar;
  application_status = x.application_status;
  application_message = x.application_message;
  reviewer_id = x.reviewer_id;
  reviewed_at = x.reviewed_at;
  created_at = x.created_at;
  updated_at = x.updated_at;
}

unfoldable pub channel_application_to_domain :
    Entities.ChannelApplication → Domain.ChannelApplication
channel_application_to_domain x = record {
  id = x.id;
  applicant_id = x.applicant_id;
  channel_id = x.channel_id;
  channel_name = x.channel_name;
  channel_avatar = x.channel_avatar;
  application_status = x.application_status;
  application_message = x.application_message;
  reviewer_id = x.reviewer_id;
  reviewed_at = x.reviewed_at;
  created_at = x.created_at;
  updated_at = x.updated_at;
}

pub user_to_domain-user_to_entity : (x : Domain.BizUser) → user_to_domain (user_to_entity x) ≡ x
unfolding user_to_domain user_to_entity
user_to_domain-user_to_entity x = refl

pub user_to_entity-user_to_domain : (x : Entities.BizUser) → user_to_entity (user_to_domain x) ≡ x
unfolding user_to_domain user_to_entity
user_to_entity-user_to_domain x = refl

pub application_to_domain-application_to_entity :
    (x : Domain.ContactApplication) → application_to_domain (application_to_entity x) ≡ x
unfolding application_to_domain application_to_entity
application_to_domain-application_to_entity x = refl

pub application_to_entity-application_to_domain :
    (x : Entities.ContactApplication) → application_to_entity (application_to_domain x) ≡ x
unfolding application_to_domain application_to_entity
application_to_entity-application_to_domain x = refl

pub channel_application_to_domain-channel_application_to_entity :
    (x : Domain.ChannelApplication)
    → channel_application_to_domain (channel_application_to_entity x) ≡ x
unfolding channel_application_to_domain channel_application_to_entity
channel_application_to_domain-channel_application_to_entity x = refl

pub channel_application_to_entity-channel_application_to_domain :
    (x : Entities.ChannelApplication)
    → channel_application_to_entity (channel_application_to_domain x) ≡ x
unfolding channel_application_to_domain channel_application_to_entity
channel_application_to_entity-channel_application_to_domain x = refl
