-- ===== src/Web/Jwt/Passes.antt =====
-- jwt.go: which requests get past the middleware, and with which user.
use hermet.Base.{
  subst, Error, err, ◌≡◌, ◌≢◌, inl, inr, refl, sym, ◌∙◌, String, Bool, true, false, Option, some,
  same, same_iff, if◌then◌else◌, Outcome, ok, Exec, return, check, check-cases,
}
use hermet.Web.{ContextUser, ContextValue, user, Response, abort, status_unauthorized}
use hermet.Web.Jwt.{JwtPayload, JwtBuilder, trim_prefix, is_ignored, build}

abbrev pub user_in : JwtPayload → ContextUser
user_in p = record { bid = p.biz_id; uid = p.user_id; sid = p.session_id }

-- How a request that was answered was treated: its path is ignored and the rest of the chain got
-- the context as it was; or it had no token and was turned away with 401, with nothing done; or its
-- token could not be decrypted and it was turned away with 401, with nothing else done; or its token
-- was decrypted and the rest of the chain got the user of the payload, with nothing done between.
pub data Treated {S D : Type 0} (b : JwtBuilder S) (path header : String)
    (before : Option ContextValue) (next : Option ContextValue → Exec S (Response D)) (s s' : S)
    (r : Response D) : Type 0 where
  ignored :
      is_ignored b.ignores path ≡ true
      → next before s ≡ (ok r, s')
      → Treated b path header before next s s' r
  no_token :
      is_ignored b.ignores path ≡ false
      → trim_prefix header "Bearer " ≡ ""
      → r ≡ abort status_unauthorized
      → s' ≡ s
      → Treated b path header before next s s' r
  bad_token :
      (e : Error)
      → is_ignored b.ignores path ≡ false
      → trim_prefix header "Bearer " ≢ ""
      → b.at_manager.decrypt (trim_prefix header "Bearer ") s ≡ (err e, s')
      → r ≡ abort status_unauthorized
      → Treated b path header before next s s' r
  let_in :
      (p : JwtPayload) (s₁ : S)
      → is_ignored b.ignores path ≡ false
      → trim_prefix header "Bearer " ≢ ""
      → b.at_manager.decrypt (trim_prefix header "Bearer ") s ≡ (ok p, s₁)
      → next (some (user (user_in p))) s₁ ≡ (ok r, s')
      → Treated b path header before next s s' r

module _ {S D : Type 0} (b : JwtBuilder S) (path header : String) (before : Option ContextValue)
    (next : Option ContextValue → Exec S (Response D)) (s s' : S) (r : Response D) where
  rejection :
      (s₁ : S)
      → ◌≡◌ {A = Outcome (Response D) × S} (return (abort status_unauthorized) s₁) (ok r, s')
      → (r ≡ abort status_unauthorized) × (s' ≡ s₁)
  rejection s₁ h = (cc, cc)

  decrypted :
      is_ignored b.ignores path ≡ false
      → trim_prefix header "Bearer " ≢ ""
      → check
          (b.at_manager.decrypt (trim_prefix header "Bearer "))
          (λ _. return (abort status_unauthorized))
          (λ p. next (some (user (user_in p))))
          s
        ≡ (ok r, s')
      → Treated b path header before next s s' r
  decrypted i ne h =
      elim (check-cases (b.at_manager.decrypt (trim_prefix header "Bearer ")) _ _ s h) [
        | inl (p, s₁, e, k) ↦ let_in p s₁ i ne e k
        | inr (x, s₁, e, k) ↦
            let (same, unmoved) = rejection s₁ k in
            bad_token x i ne
              (subst (λ t. b.at_manager.decrypt (trim_prefix header "Bearer ") s ≡ (err x, t))
                (sym unmoved) e)
              same
      ]

  by_token :
      (t : Bool)
      → is_ignored b.ignores path ≡ false
      → same (trim_prefix header "Bearer ") "" ≡ t
      → ◌≡◌ {A = Outcome (Response D) × S}
          ((if t
              then return (abort status_unauthorized)
              else check
                  (b.at_manager.decrypt (trim_prefix header "Bearer "))
                  (λ _. return (abort status_unauthorized))
                  (λ p. next (some (user (user_in p)))))
            s)
          (ok r, s')
      → Treated b path header before next s s' r
  by_token true i e h =
      let (same_r, unmoved) = rejection s h in no_token i ((same_iff _ _).0 e) same_r unmoved
  by_token false i e h = decrypted i (λ k. let f = sym e ∙ (same_iff _ _).1 k in cc) h

  by_path :
      (i : Bool)
      → is_ignored b.ignores path ≡ i
      → ◌≡◌ {A = Outcome (Response D) × S}
          ((if i
              then next before
              else if same (trim_prefix header "Bearer ") ""
              then return (abort status_unauthorized)
              else check
                  (b.at_manager.decrypt (trim_prefix header "Bearer "))
                  (λ _. return (abort status_unauthorized))
                  (λ p. next (some (user (user_in p)))))
            s)
          (ok r, s')
      → Treated b path header before next s s' r
  by_path true i h = ignored i h
  by_path false i h = by_token _ i refl h

  -- Whatever a request is answered with behind the middleware: its path was ignored, or it had no
  -- token and was turned away with 401, nothing done; or the manager answered its token with an
  -- error and it was turned away with 401; or its token, not empty, was decrypted and the handlers
  -- behind saw exactly the user, the business and the session that the payload names. The only call
  -- before the handlers and before a 401 is that of the manager: the session store is not asked.
  pub build-Treated :
      build b path header before next s ≡ (ok r, s') → Treated b path header before next s s' r
  unfolding build
  build-Treated h = by_path _ refl h
