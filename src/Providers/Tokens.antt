-- ===== src/Providers/Tokens.antt =====
-- internal/pkg/providers: jwt_manager.go and newJwtBuilder of middleware.go. The library that makes
-- managers of tokens and viper are parameters.
use hermet.Base.{ℕ, ◌≡◌, String, some, List, Outcome, ok, then_do, then_do-eq-ok}
use hermet.Web.Session.{SessionHandler}
use hermet.Web.Jwt.{Manager, JwtBuilder}
use hermet.Web.Cors.{contains}

-- `jwtConfig`; the expiration is in nanoseconds.
pub record JwtConfig : Type 0 where
  pub issuer : String
  pub expiration : ℕ
  pub private_key : String
  pub public_key : String

-- `xjwt.ClaimsConfig`
pub record ClaimsConfig : Type 0 where
  pub expiration : ℕ
  pub issuer : String

pub record Managers (S : Type 0) : Type 0 where
  pub at_manager : Manager S
  pub rt_manager : Manager S

-- What viper reads under a key, and what the builder of xjwt makes of two keys and the claims.
module _ {S : Type 0} (unmarshal_key : String → Outcome JwtConfig)
    (new_ed25519_manager : String → String → ClaimsConfig → Outcome (Manager S)) where
  unfoldable pub load_jwt_config : String → Outcome JwtConfig
  load_jwt_config key = then_do (unmarshal_key key) (λ cfg. ok cfg)

  manager_of : JwtConfig → Outcome (Manager S)
  manager_of cfg =
      new_ed25519_manager cfg.private_key cfg.public_key
        (record { expiration = cfg.expiration; issuer = cfg.issuer })

  unfoldable pub new_access_token_manager : Outcome (Manager S)
  unfolding load_jwt_config manager_of
  new_access_token_manager = then_do (load_jwt_config "jwt.access") manager_of

  unfoldable pub new_refresh_token_manager : Outcome (Manager S)
  unfolding load_jwt_config manager_of
  new_refresh_token_manager = then_do (load_jwt_config "jwt.refresh") manager_of

  unfoldable pub new_jwt_manager : Outcome (Managers S)
  new_jwt_manager = then_do new_access_token_manager (λ at_manager.
      then_do new_refresh_token_manager
        (λ rt_manager. ok (record { at_manager = at_manager; rt_manager = rt_manager })))

  -- The managers that were made, with the configuration of each.
  pub record Made (ms : Managers S) : Type 0 where
    pub access : JwtConfig
    pub refresh : JwtConfig
    pub access_read : unmarshal_key "jwt.access" ≡ ok access
    pub refresh_read : unmarshal_key "jwt.refresh" ≡ ok refresh
    pub access_made :
        new_ed25519_manager access.private_key access.public_key
          (record { expiration = access.expiration; issuer = access.issuer })
        ≡ ok ms.at_manager
    pub refresh_made :
        new_ed25519_manager refresh.private_key refresh.public_key
          (record { expiration = refresh.expiration; issuer = refresh.issuer })
        ≡ ok ms.rt_manager

  -- The manager of access tokens is made of the configuration under "jwt.access" and that of
  -- refresh tokens of the one under "jwt.refresh", each with the keys, the issuer and the expiration
  -- that stand there, wherever both are made.
  pub new_jwt_manager-Made : (ms : Managers S) → new_jwt_manager ≡ ok ms → Made ms
  unfolding new_jwt_manager new_access_token_manager new_refresh_token_manager load_jwt_config
      manager_of
  new_jwt_manager-Made ms h =
      let (a, ea, ha) = then_do-eq-ok new_access_token_manager _ h in
      let (r, er, hr) = then_do-eq-ok new_refresh_token_manager _ ha in
      let (c, ec, hc) = then_do-eq-ok (load_jwt_config "jwt.access") manager_of ea in
      let (d, ed, hd) = then_do-eq-ok (load_jwt_config "jwt.refresh") manager_of er in
      let (c', ec', hc') = then_do-eq-ok (unmarshal_key "jwt.access") _ ec in
      let (d', ed', hd') = then_do-eq-ok (unmarshal_key "jwt.refresh") _ ed in
      record {
        access = c;
        refresh = d;
        access_read = cc;
        refresh_read = cc;
        access_made = cc;
        refresh_made = cc;
      }

-- `newJwtBuilder`: the set of the paths that need no token is never nil.
unfoldable pub new_jwt_builder :
    {S : Type 0} → SessionHandler S → Manager S → Outcome (List String) → Outcome (JwtBuilder S)
unfolding contains
new_jwt_builder handler at_manager read = then_do read (λ ignores.
    ok (record { handler = handler; at_manager = at_manager; ignores = some (contains ignores) }))
