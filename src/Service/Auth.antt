-- ===== src/Service/Auth.antt =====
-- internal/service/auth_service.go
pub mod SignIn
use hermet.Base.{
  ℕ, String, same, if◌then◌else◌, sentinel, invalid_user, invalid_account_type, Exec, check, fail,
  return, ◌>>=◌,
}
use hermet.Web.{ContextUser}
use hermet.Web.Jwt.{JwtPayload, Manager}
use hermet.Repo.Repos.{BizUserRepo}
use hermet.Service.User.{Bcrypt}

abbrev pub account_type_email : String
account_type_email = "email"

-- `AuthService`
pub record AuthService (S : Type 0) : Type 0 where
  pub sign_in : String → String → String → Exec S ContextUser
  pub generate_token : ContextUser → Exec S (String × String)
  pub verify_refresh_token : String → Exec S ContextUser

-- `DefaultAuthService`, with the libraries that it calls.
pub record DefaultAuthService (S : Type 0) : Type 0 where
  pub repo : BizUserRepo S
  pub at_manager : Manager S
  pub rt_manager : Manager S
  pub bcrypt : Bcrypt S
  pub new_uuid : Exec S String

abbrev pub payload_of : ContextUser → JwtPayload
payload_of au = record { biz_id = au.bid; user_id = au.uid; session_id = au.sid }

abbrev pub user_of : JwtPayload → ContextUser
user_of p = record { bid = p.biz_id; uid = p.user_id; sid = p.session_id }

module _ {S : Type 0} (s : DefaultAuthService S) where
  unfoldable pub sign_in_by_email : String → String → Exec S ContextUser
  sign_in_by_email account credential = do
    user ← s.repo.find_by_email account
    check (s.bcrypt.compare user.passwd credential) (λ _. fail (sentinel invalid_user))
        (λ _. do sid ← s.new_uuid; return (record { bid = 0; uid = user.id; sid = sid }))

  unfoldable pub sign_in : String → String → String → Exec S ContextUser
  sign_in account account_type credential =
      if same account_type account_type_email
      then sign_in_by_email account credential
      else fail (sentinel invalid_account_type)

  unfoldable pub generate_token : ContextUser → Exec S (String × String)
  generate_token user = do
    at ← s.at_manager.encrypt (payload_of user)
    rt ← s.rt_manager.encrypt (payload_of user)
    return (at, rt)

  unfoldable pub verify_refresh_token : String → Exec S ContextUser
  verify_refresh_token refresh_token = do
    decrypted ← s.rt_manager.decrypt refresh_token
    return (user_of decrypted)

  unfoldable pub default_auth_service : AuthService S
  default_auth_service = record {
    sign_in = sign_in;
    generate_token = generate_token;
    verify_refresh_token = verify_refresh_token;
  }
