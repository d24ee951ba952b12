-- ===== src/Api/Admin.antt =====
-- internal/api/admin_controller.go and channel_handler.go
use hermet.Base.{ℕ, String, List, none, panic, Exec, return, lift, ◌>>=◌}
use hermet.Domain
use hermet.Domain.{zero_biz_user}
use hermet.Web.{R, ContextUser, status_ok}
use hermet.Service.User.{UserService}

pub record AddUserRequest : Type 0 where
  pub email : String
  pub mobile : String
  pub nickname : String
  pub avatar : String
  pub gender : String
  pub region : String
  pub birthday : ℕ
  pub tagline : String

unfoldable pub user_for : AddUserRequest → Domain.BizUser
user_for req = record zero_biz_user {
  email = req.email;
  mobile = req.mobile;
  nickname = req.nickname;
  avatar = req.avatar;
  gender = req.gender;
  region = req.region;
  birthday = req.birthday;
  tagline = req.tagline;
}

pub record CreateGroupRequest : Type 0 where
  pub name : String
  pub avatar : String
  pub member_ids : List ℕ

module _ {S : Type 0} where
  unfoldable pub add_user : UserService S → AddUserRequest → Exec S (R (Unit {0}))
  unfolding user_for
  add_user user_service req = do
    added ← user_service.add_user (user_for req)
    return (record { code = status_ok; msg = ""; payload = none })

  -- Not implemented: it panics.
  unfoldable pub create_group : CreateGroupRequest → ContextUser → Exec S (R (Unit {0}))
  create_group req au = lift panic
