-- ===== src/App/Assembly/Served.antt =====
-- The assembled program: what a request to it that was answered had to hold, and what it did.
use hermet.Base.{
  ℕ, ◌≡◌, ◌≢◌, sym, ap, ◌∙◌, subst, String, false, none, some, List, [], ◌∷◌, Outcome, ok, err,
  panic, pending, All, All-append, >>=-eq-ok,
}
use hermet.Domain
use hermet.Dao.Gorm.{Reliable}
use hermet.Service.Application.{get_contact_applications}
use hermet.Service.Application.Listed.{Holds, get_contact_applications-apply_contact}
use hermet.Web.{R, json}
use hermet.Web.Cors.{Config, contains, build_cors}
use hermet.Web.Jwt.{JwtPayload, Manager, trim_prefix, is_ignored}
use hermet.Web.Jwt.Passes.{user_in}
use hermet.Web.Engine.{Http, Gin, Documented}
use hermet.Api.Contact.{ApplyContactReq, event_for}
use hermet.Api.Routes.{Payload, registered_groups, registries}
use hermet.Providers.Tokens.{JwtConfig}
use hermet.App.{WebConfig, App, Fx, init_app, load_web_config}
use hermet.App.Wiring.{Wired, init_app-Wired}
use hermet.App.Guarded.{KeepsToItself}
use hermet.App.Applications.{registered_groups-Fresh, Applies, serve-Applies}
use hermet.App.Libraries.{
  Settings, Libraries, Storage, Security, application_service_of, user_service_of, applications_of,
  auth_of, contact_of, admin_of, builders_of,
}
use hermet.App.Assembly.{Boot, on_fx, put_fx, storage, security, assemble}
use hermet.App.Assembly.Parts.{
  storage-KeepsEngine, Coherent, security-KeepsEngine, storage-coherent, Protected,
  security-Protected,
}

module _ {B S Sql Client E : Type 0} (gin : Gin B S Payload E) (doc : Documented gin)
    (lib : Libraries B S Sql Client) (set : Settings) where
  abbrev WiredIn : Storage S → Security S → WebConfig → Fx E S → Type 0
  WiredIn st sec cfg fx =
      Wired gin doc lib.http lib.go cfg (builders_of lib sec)
        (registered_groups lib.bind lib.go (auth_of lib st sec) (contact_of lib st)
          (admin_of lib st))
        fx

  wired_by :
      (web : Outcome WebConfig) (st : Storage S) (sec : Security S) (b b' : Boot E S) (app : App)
      → ((m p : String) → gin.find b.fx.engine m p ≡ none)
      → on_fx
          (init_app gin lib.http lib.go web (builders_of lib sec) (
            registries lib.bind lib.go gin
              (auth_of lib st sec)
              (contact_of lib st)
              (admin_of lib st)))
          b
        ≡ (ok app, b')
      → (cfg : WebConfig) × (wired : WiredIn st sec cfg b.fx) × (b'.fx.engine ≡ wired.engine)
  unfolding on_fx init_app load_web_config registries
  wired_by (ok cfg) st sec b b' app free h =
      let wired : WiredIn st sec cfg b.fx =
        init_app-Wired gin doc lib.http lib.go cfg (builders_of lib sec)
          (registered_groups lib.bind lib.go (auth_of lib st sec) (contact_of lib st)
            (admin_of lib st))
          b.fx
          (registered_groups-Fresh lib.bind lib.go (auth_of lib st sec) (contact_of lib st)
            (admin_of lib st))
          (λ m p r e. free m p) in
      (cfg, wired, ap (λ x. x.1.fx.engine) (sym h ∙ ap (λ x. put_fx x b) wired.made))
  wired_by (err e) st sec b b' app free h = cc
  wired_by panic st sec b b' app free h = cc
  wired_by pending st sec b b' app free h = cc

  -- What a request to apply for a contact held and did, where it was answered with a value.
  pub record ServedBy (b : Boot E S) (http : Http B) (req : ApplyContactReq) (s s' : S)
      : Type 0 where
    pub access : JwtConfig
    pub access_read : set.jwt "jwt.access" ≡ ok access
    pub manager : Manager S
    pub manager_made :
        lib.new_ed25519_manager access.private_key access.public_key
          (record { expiration = access.expiration; issuer = access.issuer })
        ≡ ok manager
    pub payload : JwtPayload
    pub s₁ : S
    pub decrypted : manager.decrypt (trim_prefix http.access_token "Bearer ") s ≡ (ok payload, s₁)
    pub not_self : req.contact_id ≢ payload.user_id
    pub st : Storage S
    pub b₁ : Boot E S
    pub stored_in : storage lib set b ≡ (ok st, b₁)
    pub is_listed :
        (l : List Domain.ContactApplication) (s'' : S)
        → get_contact_applications (application_service_of lib st) req.contact_id s' ≡ (ok l, s'')
        → Holds (application_service_of lib st) (event_for req (user_in payload)) l

  not_ignored :
      (sec : Security S) (ignores : List String) (path : String)
      → Protected lib set sec
      → set.ignores ≡ ok ignores
      → contains ignores path ≡ false
      → is_ignored sec.jwt.ignores path ≡ false
  not_ignored sec ignores path prot i miss =
      let same : prot.ignores ≡ ignores = let k = sym prot.ignores_read ∙ i in cc in
      ap (λ o. is_ignored o path) prot.ignores_kept ∙ ap (λ l. contains l path) same ∙ miss

  from_wired :
      (rel : Reliable lib.contact_applications) (st : Storage S) (sec : Security S)
      (cfg : WebConfig) (fx : Fx E S) (wired : WiredIn st sec cfg fx) (http : Http B)
      (req : ApplyContactReq) (s s' : S) (c : ℕ) (r : R Payload)
      → (b b₁ : Boot E S) → storage lib set b ≡ (ok st, b₁)
      → Coherent st.contact_applications
      → Protected lib set sec
      → All KeepsToItself (gin.used fx.engine)
      → ((cfg : Config) → KeepsToItself (lib.new_cors cfg))
      → is_ignored sec.jwt.ignores http.path ≡ false
      → http.method ≡ "POST"
      → http.path ≡ "/api/v1/contact/apply"
      → lib.bind.apply_contact_req http ≡ some req
      → gin.serve wired.engine http none s ≡ (ok (json c r), s')
      → ServedBy b http req s s'
  unfolding build_cors event_for
  from_wired rel st sec cfg fx wired http req s s' c r b b₁ stores coherent prot used cors miss m p
        bound served =
      let x : Applies lib.bind sec.jwt (application_service_of lib st) (applications_of lib st) http
          s s' =
        serve-Applies gin doc lib.http lib.bind lib.go (auth_of lib st sec) (user_service_of lib st)
          (application_service_of lib st) (applications_of lib st) (admin_of lib st) sec.jwt
          (record { build = build_cors lib.new_cors sec.cors } ∷ []) [] cfg fx wired http s s' c r
          (All-append KeepsToItself (gin.used fx.engine) _ used (cors _, tt)) tt miss m p served in
      let same_req : x.req ≡ req = let y = sym x.bound ∙ bound in cc in
      record {
        access = prot.managers.access;
        access_read = prot.managers.access_read;
        manager = sec.managers.at_manager;
        manager_made = prot.managers.access_made;
        payload = x.payload;
        s₁ = x.s₁;
        decrypted =
            subst
              (λ k. k.decrypt (trim_prefix http.access_token "Bearer ") s ≡ (ok x.payload, x.s₁))
              prot.access x.decrypted;
        not_self = rw same_req at x.not_self;
        st = st;
        b₁ = b₁;
        stored_in = stores;
        is_listed = λ l s'' got.
            get_contact_applications-apply_contact (application_service_of lib st)
              (applications_of lib st) coherent rel (event_for req (user_in x.payload)) l x.s₁ s'
              s'' (rw same_req at x.applied) got;
      }

  -- In the program that was assembled over a gin as documented, whose engine had no route, from
  -- whatever configuration, where the other middleware keeps to itself, the path is not configured
  -- as one that needs no token, and the database does what gorm documents: a POST to
  -- /api/v1/contact/apply that was answered with a value had a token that the manager made of the
  -- configuration under "jwt.access" decrypted; the body named another user than that of the token;
  -- and the list of applications that the service over the storage that `assemble` made then gives
  -- for the user in the body holds the pending application of the token's user.
  pub assemble-ServedBy :
      (rel : Reliable lib.contact_applications) (b b' : Boot E S) (app : App)
      (ignores : List String) (http : Http B) (req : ApplyContactReq) (s s' : S) (c : ℕ)
      (r : R Payload)
      → assemble lib set gin b ≡ (ok app, b')
      → ((m p : String) → gin.find b.fx.engine m p ≡ none)
      → All KeepsToItself (gin.used b.fx.engine)
      → ((cfg : Config) → KeepsToItself (lib.new_cors cfg))
      → set.ignores ≡ ok ignores
      → contains ignores http.path ≡ false
      → http.method ≡ "POST"
      → http.path ≡ "/api/v1/contact/apply"
      → lib.bind.apply_contact_req http ≡ some req
      → gin.serve b'.fx.engine http none s ≡ (ok (json c r), s')
      → ServedBy b http req s s'
  unfolding assemble build_cors
  assemble-ServedBy rel b b' app ignores http req s s' c r h free used cors i miss m p bound
        served =
      let (st, b₁, e₁, h₁) = >>=-eq-ok (storage lib set) _ b h in
      let (sec, b₂, e₂, h₂) = >>=-eq-ok (security lib set) _ b₁ h₁ in
      let same_engine : b₂.fx.engine ≡ b.fx.engine =
        ap (λ x. x.1.fx.engine) (sym e₂)
        ∙ security-KeepsEngine lib set b₁
        ∙ ap (λ x. x.1.fx.engine) (sym e₁)
        ∙ storage-KeepsEngine lib set b in
      let prot : Protected lib set sec = security-Protected lib set b₁ b₂ sec e₂ in
      let (cfg, wired, engine) =
        wired_by set.web st sec b₂ b' app (λ q t. ap (λ e. gin.find e q t) same_engine ∙ free q t)
          h₂ in
      from_wired rel st sec cfg b₂.fx wired http req s s' c r b b₁ e₁
        (storage-coherent lib set b b₁ st e₁) prot
        (subst (λ e. All KeepsToItself (gin.used e)) (sym same_engine) used) cors
        (not_ignored sec ignores http.path prot i miss) m p bound
        (subst (λ e. gin.serve e http none s ≡ (ok (json c r), s')) engine served)
