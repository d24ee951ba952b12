-- ===== src/Web/Answers.antt =====
-- handler_wrapper.go: what an answer of a wrapped handler means.
use hermet.Base.{
  ℕ, ◌≡◌, ◌⊎◌, inl, inr, refl, ap, ◌∙◌, Bool, true, false, Option, none, some, if◌then◌else◌, Error,
  is, unauthorized, Outcome, ok, err, Exec, return, check-cases,
}
use hermet.Web.{
  R, ContextUser, Context, Response, json, error_json, abort, extract_auth_user, write_res, bu,
  status_bad_request, or_unauthorized, or_bad_request, status_unauthorized,
  status_internal_server_error,
}

-- How a request to a handler that needs a body and a user came to its answer `a`.
pub data Answered {S D Req : Type 0} (biz_func : Req → ContextUser → Exec S (R D))
    (ctx : Context Req) (s s' : S) (a : Response D) : Type 0 where
  bad_request :
      ctx.bound ≡ none → s ≡ s' → a ≡ abort status_bad_request → Answered biz_func ctx s s' a
  no_user :
      (req : Req)
      → ctx.bound ≡ some req
      → extract_auth_user ctx.auth_user ≡ none
      → s ≡ s'
      → a ≡ abort status_unauthorized
      → Answered biz_func ctx s s' a
  called :
      (req : Req) (au : ContextUser) (r : R D)
      → ctx.bound ≡ some req
      → extract_auth_user ctx.auth_user ≡ some au
      → biz_func req au s ≡ (ok r, s')
      → a ≡ json r.code r
      → Answered biz_func ctx s s' a
  failed :
      (req : Req) (au : ContextUser) (e : Error)
      → ctx.bound ≡ some req
      → extract_auth_user ctx.auth_user ≡ some au
      → biz_func req au s ≡ (err e, s')
      → ((is e unauthorized ≡ true) × (a ≡ abort status_unauthorized))
        ⊎ ((is e unauthorized ≡ false) × (a ≡ error_json status_internal_server_error e))
      → Answered biz_func ctx s s' a

module _ {S D : Type 0} where
  by_error :
      (t : Bool) (e : Error) (s s' : S) (a : Response D)
      → is e unauthorized ≡ t
      → ◌≡◌ {A = Outcome (Response D) × S}
          (return
            (if t then abort status_unauthorized else error_json status_internal_server_error e)
            s)
          (ok a, s')
      → (s ≡ s')
        × (((is e unauthorized ≡ true) × (a ≡ abort status_unauthorized))
            ⊎ ((is e unauthorized ≡ false) × (a ≡ error_json status_internal_server_error e)))
  by_error true e s s' a t h = (cc, inl (t, cc))
  by_error false e s s' a t h = (cc, inr (t, cc))

  by_value :
      (r : R D) (s s' : S) (a : Response D)
      → ◌≡◌ {A = Outcome (Response D) × S} (return (json r.code r) s) (ok a, s')
      → (s ≡ s') × (a ≡ json r.code r)
  by_value r s s' a h = (cc, cc)

  by_abort :
      (c : ℕ) (s s' : S) (a : Response D)
      → ◌≡◌ {A = Outcome (Response D) × S} (return (abort c) s) (ok a, s')
      → (s ≡ s') × (a ≡ abort c)
  by_abort c s s' a h = (cc, cc)

  module _ {Req : Type 0} (biz_func : Req → ContextUser → Exec S (R D)) (ctx : Context Req)
      (s s' : S) (a : Response D) where
    by_handler :
        (req : Req) (au : ContextUser)
        → ctx.bound ≡ some req
        → extract_auth_user ctx.auth_user ≡ some au
        → write_res (biz_func req au) s ≡ (ok a, s')
        → Answered biz_func ctx s s' a
    unfolding write_res
    by_handler req au b u h = elim (check-cases (biz_func req au) _ _ s h) [
      | inl (r, s₁, e, k) ↦
          let (j, c) = by_value r s₁ s' a k in called req au r b u (e ∙ ap (λ z. (ok r, z)) j) c
      | inr (x, s₁, e, k) ↦
          let (j, c) = by_error _ x s₁ s' a refl k in
          failed req au x b u (e ∙ ap (λ z. (err x, z)) j) c
    ]

    by_user :
        (o : Option ContextUser) (req : Req)
        → ctx.bound ≡ some req
        → extract_auth_user ctx.auth_user ≡ o
        → or_unauthorized o (λ au. write_res (biz_func req au)) s ≡ (ok a, s')
        → Answered biz_func ctx s s' a
    by_user none req b u h =
        let (j, c) = by_abort status_unauthorized s s' a h in no_user req b u j c
    by_user (some au) req b u h = by_handler req au b u h

    by_bound :
        (o : Option Req)
        → ctx.bound ≡ o
        → or_bad_request o
            (λ req.
              or_unauthorized (extract_auth_user ctx.auth_user) (λ au. write_res (biz_func req au)))
            s
          ≡ (ok a, s')
        → Answered biz_func ctx s s' a
    by_bound none b h = let (j, c) = by_abort status_bad_request s s' a h in bad_request b j c
    by_bound (some req) b h = by_user _ req b refl h

    -- An answer that was written for a request to a handler with a body and a user is one of these:
    -- 400, without a call of the handler, where the body does not bind; 401, without a call of the
    -- handler, where the context holds no user; what the handler returned, with the code that it
    -- chose; or, where the handler failed, 401 for an error that is `ErrUnauthorized` and 500 for
    -- any other.
    pub bu-Answered : bu biz_func ctx s ≡ (ok a, s') → Answered biz_func ctx s s' a
    unfolding bu
    bu-Answered h = by_bound _ refl h
