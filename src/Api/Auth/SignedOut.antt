-- ===== src/Api/Auth/SignedOut.antt =====
-- auth_handler.go over redis_jwt_handler.go: no new tokens after the session is cleared, and which
-- tokens a sign-in gives.
use hermet.Base.{
  ◌≡◌, refl, sym, String, some, [], both, errorf, sentinel, unauthorized, ok, err, >>=-eq-ok,
  last-eq-ok,
}
use hermet.Web.{R, ContextUser, abort, Context, b, write_res, status_unauthorized}
use hermet.Web.Session.{RedisSessionHandler, as_handler, clear_session}
use hermet.Web.Session.Life.{Reliable, check_session-clear_session}
use hermet.Service.Auth.{AuthService}
use hermet.Api.Auth.{
  AuthHandler, RefreshTokenRequest, SignInReq, TokenResp, refresh_token, sign_in, token_response,
}

-- The handler over the sessions in Redis.
abbrev pub handler : {S : Type 0} → RedisSessionHandler S → AuthService S → AuthHandler S
handler h svc = record { session = as_handler h; svc = svc }

module _ {S : Type 0} (h : RedisSessionHandler S) (rel : Reliable h.rdb) (svc : AuthService S) where
  -- With a Redis that does what it documents: once the session of a user is cleared, a refresh
  -- token of this session that still passes the token service, without a change of the state, gets
  -- no new tokens: the handler's error is unauthorized with the reason, and the client is answered
  -- with 401.
  pub refresh_token-clear_session :
      (au : ContextUser) (req : RefreshTokenRequest) (ctx : Context RefreshTokenRequest) (s s' : S)
      → clear_session h au.sid s ≡ (ok tt, s')
      → svc.verify_refresh_token req.refresh_token s' ≡ (ok au, s')
      → ctx.bound ≡ some req
      → (refresh_token (handler h svc) req s'
          ≡ (err (both (sentinel unauthorized) (errorf "been signed out" [])), s'))
        × (b (refresh_token (handler h svc)) ctx s' ≡ (ok (abort status_unauthorized), s'))
  unfolding refresh_token b write_res as_handler
  refresh_token-clear_session au req ctx s s' e v bound =
      let c = check_session-clear_session h rel au.sid au.uid s s' e in
      (rw v (rw c refl), rw bound (rw v (rw c refl)))

-- What a call of the sign-in handler that returned did: the session was created for the user who
-- was signed in, and the tokens of the answer were made for the same user.
pub record Session {S : Type 0} (h : AuthHandler S) (req : SignInReq) (s s' : S) (r : R TokenResp)
    : Type 0 where
  pub au : ContextUser
  pub s₁ : S
  pub s₂ : S
  pub at : String
  pub rt : String
  pub signed_in : h.svc.sign_in req.account req.account_type req.credential s ≡ (ok au, s₁)
  pub created : h.session.create_session au.sid au.uid s₁ ≡ (ok tt, s₂)
  pub tokens : h.svc.generate_token au s₂ ≡ (ok (at, rt), s')
  pub answer : r ≡ record {
    code = 200;
    msg = "";
    payload = some (record { access_token = at; refresh_token = rt });
  }

-- A call of the sign-in handler that returned has created the session of the user who was signed
-- in, and its tokens are made for this user.
pub sign_in-Session :
    {S : Type 0} (h : AuthHandler S) (req : SignInReq) (s s' : S) (r : R TokenResp)
    → sign_in h req s ≡ (ok r, s')
    → Session h req s s' r
unfolding sign_in
sign_in-Session h req s s' r e =
    let (au, s₁, e₁, h₁) =
      >>=-eq-ok (h.svc.sign_in req.account req.account_type req.credential) _ s e in
    let (_, s₂, e₂, h₂) = >>=-eq-ok (h.session.create_session au.sid au.uid) _ s₁ h₁ in
    let (tokens, e₃, made) = last-eq-ok (h.svc.generate_token au) token_response s₂ h₂ in
    record {
      au = au;
      s₁ = s₁;
      s₂ = s₂;
      at = tokens.0;
      rt = tokens.1;
      signed_in = e₁;
      created = e₂;
      tokens = e₃;
      answer = sym made;
    }
