-- ===== src/Service/Auth/SignIn.antt =====
-- auth_service.go: who is signed in, and that a refresh token leads back to its user.
use hermet.Base.{
  ℕ, ◌+◌, ◌<◌, ◌≤◌, arith, ◌≡◌, refl, sym, ap, ◌∙◌, String, Bool, true, false, same, same_iff,
  if◌then◌else◌, sentinel, invalid_account_type, Outcome, ok, fail, >>=-eq-ok, check-eq-ok,
  last-eq-ok,
}
use hermet.Domain
use hermet.Web.{ContextUser}
use hermet.Web.Jwt.{JwtPayload, Manager}
use hermet.Service.Auth.{
  DefaultAuthService, account_type_email, sign_in, sign_in_by_email, generate_token,
  verify_refresh_token, payload_of,
}

-- What a call of `SignIn` that returned a user did.
pub record SignedIn {S : Type 0} (svc : DefaultAuthService S)
    (account account_type credential : String) (s s' : S) (au : ContextUser) : Type 0 where
  pub s₁ : S
  pub s₂ : S
  pub account_user : Domain.BizUser
  pub by_email : account_type ≡ account_type_email
  pub found : svc.repo.find_by_email account s ≡ (ok account_user, s₁)
  pub compared : svc.bcrypt.compare account_user.passwd credential s₁ ≡ (ok tt, s₂)
  pub fresh_sid : svc.new_uuid s₂ ≡ (ok au.sid, s')
  pub same_uid : au.uid ≡ account_user.id
  pub no_bid : au.bid ≡ 0

abbrev made_user : Domain.BizUser → String → ContextUser
made_user user sid = record { bid = 0; uid = user.id; sid = sid }

module _ {S : Type 0} (svc : DefaultAuthService S) (account account_type credential : String) where
  by_email-SignedIn :
      (s s' : S) (au : ContextUser)
      → account_type ≡ account_type_email
      → sign_in_by_email svc account credential s ≡ (ok au, s')
      → SignedIn svc account account_type credential s s' au
  unfolding sign_in_by_email
  by_email-SignedIn s s' au t h =
      let (user, s₁, e₁, h₁) = >>=-eq-ok (svc.repo.find_by_email account) _ s h in
      let (_, s₂, e₂, h₂) =
        check-eq-ok (svc.bcrypt.compare user.passwd credential) _ _ s₁ (λ _ _ k. cc) h₁ in
      let (sid, e₃, made) = last-eq-ok svc.new_uuid (λ i. made_user user i) s₂ h₂ in
      record {
        s₁ = s₁;
        s₂ = s₂;
        account_user = user;
        by_email = t;
        found = e₁;
        compared = e₂;
        fresh_sid = e₃ ∙ ap (λ u. (ok u.sid, s')) made;
        same_uid = sym (ap (λ u. u.uid) made);
        no_bid = sym (ap (λ u. u.bid) made);
      }

  by_type :
      (b : Bool) (s s' : S) (au : ContextUser)
      → same account_type account_type_email ≡ b
      → ◌≡◌ {A = Outcome ContextUser × S}
          ((if b
              then sign_in_by_email svc account credential
              else fail (sentinel invalid_account_type))
            s)
          (ok au, s')
      → SignedIn svc account account_type credential s s' au
  by_type true s s' au t h = by_email-SignedIn s s' au ((same_iff _ _).0 t) h
  by_type false s s' au t h = cc

  -- A user is signed in only with the account type "email", for the user that the repository finds
  -- under the account, and only when the credential passes the comparison with this user's password
  -- hash. The user has this id, the business id 0 and a session id made for this call.
  pub sign_in-SignedIn :
      (s s' : S) (au : ContextUser)
      → sign_in svc account account_type credential s ≡ (ok au, s')
      → SignedIn svc account account_type credential s s' au
  unfolding sign_in
  sign_in-SignedIn s s' au h = by_type _ s s' au refl h

-- What xjwt documents of a manager that was made with an expiration: by its clock, a token leads
-- back to its payload until it expires, and decrypting changes nothing.
pub record Expires {S : Type 0} (manager : Manager S) : Type 0 where
  pub clock : S → ℕ
  pub expiration : ℕ
  pub decrypts :
      (p : JwtPayload) (t : String) (m m' m'' : S)
      → manager.encrypt p m ≡ (ok t, m')
      → clock m'' < clock m + expiration
      → manager.decrypt t m'' ≡ (ok p, m'')

module _ {S : Type 0} (svc : DefaultAuthService S) where
  -- Where a refresh token leads back to its payload until it expires, and the clock does not go back
  -- while the access token is made: the refresh token of a pair that was generated for a user leads
  -- `VerifyRefreshToken` back to this user, until the expiration has passed since the call.
  pub verify_refresh_token-generate_token :
      (law : Expires svc.rt_manager) (au : ContextUser) (at rt : String) (s s' s'' : S)
      → ((p : JwtPayload) (t : String) (m m' : S)
          → svc.at_manager.encrypt p m ≡ (ok t, m')
          → law.clock m ≤ law.clock m')
      → generate_token svc au s ≡ (ok (at, rt), s')
      → law.clock s'' < law.clock s + law.expiration
      → verify_refresh_token svc rt s'' ≡ (ok au, s'')
  unfolding generate_token verify_refresh_token
  verify_refresh_token-generate_token law au at rt s s' s'' forward h lt =
      let (a, s₁, e₁, h₁) = >>=-eq-ok (svc.at_manager.encrypt (payload_of au)) _ s h in
      let (r, e₂, made) = last-eq-ok (svc.rt_manager.encrypt (payload_of au)) (λ t. (a, t)) s₁ h₁ in
      let later = forward (payload_of au) a s s₁ e₁ in
      let e₃ =
        law.decrypts (payload_of au) rt s₁ s' s'' (e₂ ∙ ap (λ p. (ok p.1, s')) made)
          (omega arith) in
      rw e₃ refl
