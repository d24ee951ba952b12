-- ===== src/App/Applications.antt =====
-- From the request to the database: a request to apply for a contact goes through the engine, the
-- middleware, the wrapper, the handler, the service, the repository and the data access object.
use mathlib.Core.List.{map-append, append_assoc}
use hermet.Base.{
  ℕ, ◌≡◌, ◌≢◌, inl, inr, refl, sym, ap, ◌∙◌, false, none, some, List, ◌∷◌, ◌++◌, ok, Exec, All,
  last-eq-ok,
}
use hermet.Dao.Entities
use hermet.Dao.Gorm.{Sharded}
use hermet.Service.Application as service
use hermet.Service.Application.{
  ApplicationService, DefaultApplicationService, default_application_service,
  get_contact_applications,
}
use hermet.Service.Application.Listed.{over_dao}
use hermet.Web.{bu, extract_auth_user, user, R, Response, json}
use hermet.Web.Answers.{Answered, bad_request, no_user, called, failed, bu-Answered}
use hermet.Web.Jwt.{trim_prefix, JwtPayload, JwtBuilder, is_ignored}
use hermet.Web.Jwt.Passes.{user_in}
use hermet.Web.Engine.{
  Http, Middleware, chain, Route, Gin, Documented, HandlerFuncBuilder, plain_from,
}
use hermet.Web.Engine.Table.{entry, found, Fresh}
use hermet.Api.Auth.{AuthHandler}
use hermet.Api.Contact.{ApplyContactReq, GetApplicationsResp, event_for, apply_contact}
use hermet.Api.Contact.Guards.{Passed, apply_contact-Passed}
use hermet.Api.Routes.{
  Payload, applications, map_response, with_body, Binding, ContactHandler, AdminHandler,
  apply_route, auth_routes, contact_routes, admin_routes, registered_groups,
}
use hermet.Service.User.{UserService}
use hermet.App.{WebConfig, Fx, NetHttp}
use hermet.App.Wiring.{flat, middlewares, Wired}
use hermet.App.Guarded.{KeepsToItself, jwt_middleware, LetIn, serve-LetIn}

module _ {B S : Type 0} (bind : Binding B) (go : Exec S (Unit {0}) → Exec S (Unit {0}))
    (auth : AuthHandler S) (contact : ContactHandler S) (admin : AdminHandler S) where
  -- The program's routes are paths that gin takes as they are, and none stands twice.
  pub registered_groups-Fresh : Fresh (flat (registered_groups bind go auth contact admin))
  unfolding auth_routes contact_routes admin_routes plain_from
  registered_groups-Fresh = (
    refl,
    refl,
    (refl, refl, (refl, refl, (refl, refl, (refl, refl, (refl, refl, (refl, refl, tt)))))),
  )

  pub entry-apply :
      entry (flat (registered_groups bind go auth contact admin)) "POST" "/api/v1/contact/apply"
      ≡ some (apply_route bind go contact)
  unfolding auth_routes contact_routes admin_routes
  entry-apply = refl

-- A request to apply for a contact that was answered with a value, and what it did.
pub record Applies {B S : Type 0} (bind : Binding B) (jwt : JwtBuilder S)
    (svc : DefaultApplicationService S) (d : Sharded S Entities.ContactApplication) (http : Http B)
    (s s' : S) : Type 0 where
  pub payload : JwtPayload
  pub req : ApplyContactReq
  pub s₁ : S
  pub decrypted :
      jwt.at_manager.decrypt (trim_prefix http.access_token "Bearer ") s ≡ (ok payload, s₁)
  pub bound : bind.apply_contact_req http ≡ some req
  pub not_self : req.contact_id ≢ payload.user_id
  pub applied :
      service.apply_contact (over_dao svc d) (event_for req (user_in payload)) s₁ ≡ (ok tt, s')

module _ {B S : Type 0} (bind : Binding B) (jwt : JwtBuilder S) (svc : DefaultApplicationService S)
    (d : Sharded S Entities.ContactApplication) (http : Http B) (s s' : S) where
  abbrev pub svc_in : ApplicationService S
  svc_in = default_application_service (over_dao svc d)

  by_answer :
      (p : JwtPayload) (s₁ : S) (a : Response (List GetApplicationsResp)) (c : ℕ) (r : R Payload)
      → jwt.at_manager.decrypt (trim_prefix http.access_token "Bearer ") s ≡ (ok p, s₁)
      → map_response applications a ≡ json c r
      → Answered
          (apply_contact svc_in)
          (with_body (some (user (user_in p))) (bind.apply_contact_req http))
          s₁
          s'
          a
      → Applies bind jwt svc d http s s'
  unfolding extract_auth_user default_application_service
  by_answer p s₁ a c r dec m (bad_request b e k) = let x = ap (map_response applications) k in cc
  by_answer p s₁ a c r dec m (no_user req b u e k) = cc
  by_answer p s₁ a c r dec m (called req au r' b u e k) =
      let same_user : user_in p ≡ au = cc in
      let passed : Passed svc_in req (user_in p) s₁ s' r' =
        apply_contact-Passed svc_in req (user_in p) s₁ s' r' (rw (sym same_user) at e) in
      record {
        payload = p;
        req = req;
        s₁ = s₁;
        decrypted = dec;
        bound = b;
        not_self = passed.not_self;
        applied = passed.applied;
      }
  by_answer p s₁ a c r dec m (failed req au e b u f (inl (t, k))) =
      let x = ap (map_response applications) k in cc
  by_answer p s₁ a c r dec m (failed req au e b u f (inr (t, k))) =
      let x = ap (map_response applications) k in cc

  by_handler :
      (svc' : ContactHandler S) (go : Exec S (Unit {0}) → Exec S (Unit {0})) (c : ℕ) (r : R Payload)
      → svc'.application_svc ≡ svc_in
      → LetIn jwt (apply_route bind go svc').handler http s s' (json c r)
      → Applies bind jwt svc d http s s'
  by_handler h go c r e x =
      let (a, f, k) =
        last-eq-ok
          (bu (apply_contact h.application_svc)
            (with_body (some (user (user_in x.payload))) (bind.apply_contact_req http)))
          (map_response applications) x.s₁ x.handled in
      by_answer x.payload x.s₁ a c r x.decrypted k (
        bu-Answered (apply_contact svc_in)
          (with_body (some (user (user_in x.payload))) (bind.apply_contact_req http)) x.s₁ s' a
          (rw e at f))

-- The program as `InitApp` wired it, with the services over the data access objects.
module _ {B S E : Type 0} (gin : Gin B S Payload E) (doc : Documented gin) (http_server : NetHttp S)
    (bind : Binding B) (go : Exec S (Unit {0}) → Exec S (Unit {0})) (auth : AuthHandler S)
    (users : UserService S) (svc : DefaultApplicationService S)
    (d : Sharded S Entities.ContactApplication) (admin : AdminHandler S) (jwt : JwtBuilder S)
    (pre post : List (HandlerFuncBuilder B S Payload)) where
  abbrev pub contact_in : ContactHandler S
  contact_in = record {
    user_svc = users;
    application_svc = default_application_service (over_dao svc d);
  }

  abbrev pub groups_in : List (List (Route B S Payload))
  groups_in = registered_groups bind go auth contact_in admin

  abbrev pub builders_in : List (HandlerFuncBuilder B S Payload)
  builders_in = pre ++ record { build = jwt_middleware jwt } ∷ post

  in_order :
      (us : List (Middleware B S Payload))
      → us ++ middlewares gin doc builders_in
        ≡ (us ++ middlewares gin doc pre) ++ jwt_middleware jwt ∷ middlewares gin doc post
  in_order us =
      ap (λ l. us ++ l) (map-append _ pre (record { build = jwt_middleware jwt } ∷ post))
      ∙ sym (
          append_assoc us (middlewares gin doc pre) (jwt_middleware jwt ∷ middlewares gin doc post))

  pub finds_apply :
      (cfg : WebConfig) (fx : Fx E S)
      (wired : Wired gin doc http_server go cfg builders_in groups_in fx)
      → gin.find wired.engine "POST" "/api/v1/contact/apply"
        ≡ some (
            chain
              ((gin.used fx.engine ++ middlewares gin doc pre)
                ++ jwt_middleware jwt ∷ middlewares gin doc post)
              (apply_route bind go contact_in).handler)
  finds_apply cfg fx wired =
      wired.finds "POST" "/api/v1/contact/apply"
      ∙ ap
          (λ o.
            found (gin.used fx.engine ++ middlewares gin doc builders_in) o
              (gin.find fx.engine "POST" "/api/v1/contact/apply"))
          (entry-apply bind go auth contact_in admin)
      ∙ ap (λ u. some (chain u (apply_route bind go contact_in).handler))
          (in_order (gin.used fx.engine))

  -- In the program that `InitApp` wired, where the other middleware keeps to itself and the path is
  -- not one that needs no token: what a POST to /api/v1/contact/apply that was answered with a value
  -- held and did.
  pub serve-Applies :
      (cfg : WebConfig) (fx : Fx E S)
      (wired : Wired gin doc http_server go cfg builders_in groups_in fx) (http : Http B) (s s' : S)
      (c : ℕ) (r : R Payload)
      → All KeepsToItself (gin.used fx.engine ++ middlewares gin doc pre)
      → All KeepsToItself (middlewares gin doc post)
      → is_ignored jwt.ignores http.path ≡ false
      → http.method ≡ "POST"
      → http.path ≡ "/api/v1/contact/apply"
      → gin.serve wired.engine http none s ≡ (ok (json c r), s')
      → Applies bind jwt svc d http s s'
  serve-Applies cfg fx wired http s s' c r a a' i m p h =
      let x : LetIn jwt (apply_route bind go contact_in).handler http s s' (json c r) =
        serve-LetIn gin doc jwt (gin.used fx.engine ++ middlewares gin doc pre)
          (middlewares gin doc post) (apply_route bind go contact_in) wired.engine http s s'
          (json c r) a a' (rw (m, p) (finds_apply cfg fx wired)) i (λ k e. cc) h in
      by_handler bind jwt svc d http s s' contact_in go c r refl x
