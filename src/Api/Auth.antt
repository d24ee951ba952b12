-- ===== src/Api/Auth.antt =====
-- internal/api/auth_handler.go: sign-in, refresh and sign-out.
pub mod SignedOut
use hermet.Base.{
  ℕ, String, Option, none, some, Error, both, sentinel, unauthorized, Exec, check, fail, return,
  ◌>>=◌,
}
use hermet.Web.{R, ContextUser, ContextValue, extract_auth_user, status_ok, status_unauthorized}
use hermet.Web.Session.{SessionHandler}
use hermet.Service.Auth.{AuthService}

pub record SignInReq : Type 0 where
  pub account : String
  pub account_type : String
  pub credential : String

pub record TokenResp : Type 0 where
  pub access_token : String
  pub refresh_token : String

pub record RefreshTokenRequest : Type 0 where
  pub refresh_token : String

pub record AuthHandler (S : Type 0) : Type 0 where
  pub session : SessionHandler S
  pub svc : AuthService S

-- `xgin.R{Code: http.StatusOK, Data: tokenResp{…}}`
abbrev pub token_response : String × String → R TokenResp
token_response (at, rt) = record {
  code = status_ok;
  msg = "";
  payload = some (record { access_token = at; refresh_token = rt });
}

-- The goroutine that `SignOut` starts, if it starts one: clear the session, and log a failure.
module _ {S : Type 0} (h : AuthHandler S) where
  unfoldable pub sign_in : SignInReq → Exec S (R TokenResp)
  sign_in req = do
    au ← h.svc.sign_in req.account req.account_type req.credential
    created ← h.session.create_session au.sid au.uid
    tokens ← h.svc.generate_token au
    return (token_response tokens)

  -- A failure to refresh the session is logged, and the handler goes on.
  abbrev ignore_error : Exec S (Unit {0}) → Exec S (Unit {0})
  ignore_error m = check m (λ _. return tt) (λ _. return tt)

  unfoldable pub refresh_token : RefreshTokenRequest → Exec S (R TokenResp)
  refresh_token req = do
    au ← h.svc.verify_refresh_token req.refresh_token
    check (h.session.check_session au.sid au.uid) (λ e. fail (both (sentinel unauthorized) e))
        (λ _. do
          refreshed ← ignore_error (h.session.refresh_session au.sid)
          tokens ← h.svc.generate_token au
          return (token_response tokens))

  abbrev not_signed_in : R TokenResp
  not_signed_in = record {
    code = status_unauthorized;
    msg = "user is not signed in";
    payload = none;
  }

  abbrev signed_out : Option ContextUser → R TokenResp × Option (Exec S (Unit {0}))
  signed_out none = (not_signed_in, none)
  signed_out (some au) = (
    record { code = status_ok; msg = "signed out"; payload = none },
    some (ignore_error (h.session.clear_session au.sid)),
  )

  -- The response at once, and the goroutine that clears the session later.
  unfoldable pub sign_out : Option ContextValue → R TokenResp × Option (Exec S (Unit {0}))
  unfolding extract_auth_user
  sign_out val = signed_out (extract_auth_user val)
