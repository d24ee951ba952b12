-- ===== src/App/Assembly.antt =====
-- cmd/main.go and the module.go files of internal: the program as fx puts it together. fx calls the
-- providers that `InitApp` needs, each once and after those that it needs itself; here they stand in
-- one such order. Nothing needs the clients of mongo and kafka, so that fx makes neither.
pub mod Parts
pub mod Served
use hermet.Base.{
  ℕ, ℤ, String, Option, none, some, List, [], ◌∷◌, Outcome, ok, then_do, Exec, lift, return, ◌>>=◌,
}
use hermet.Snowflake.{extract_shard_val}
use hermet.Sharding.Sharder.{Hash}
use hermet.Sharding.Helper.{IdGenerator, ShardHelper}
use hermet.Dao.Entities
use hermet.Dao.Gorm.{Db, Gorm, Sharded}
use hermet.Dao.BizUser.{biz_user_dao}
use hermet.Dao.UserContact.{user_contact_dao}
use hermet.Dao.ContactApplication.{contact_application_dao}
use hermet.Dao.ChannelApplication.{channel_application_dao}
use hermet.Repo.Repos.{
  default_biz_user_repo, default_user_contact_repo, default_contact_application_repo,
  default_channel_application_repo,
}
use hermet.Service.User.{Bcrypt, UserService, default_user_service}
use hermet.Service.Auth.{DefaultAuthService, default_auth_service}
use hermet.Service.Application.{DefaultApplicationService, default_application_service}
use hermet.Service.Application.Listed.{over_dao}
use hermet.Web.Jwt.{Manager, JwtBuilder}
use hermet.Web.Session.{Redis, RedisSessionHandler, as_handler}
use hermet.Web.Cors.{Hostname, CorsBuilder, Config, build_cors, configured_cors_builder}
use hermet.Web.Engine.{Gin, Middleware, HandlerFuncBuilder}
use hermet.Api.Auth.{AuthHandler}
use hermet.Api.Routes.{Payload, Binding, ContactHandler, AdminHandler, registries}
use hermet.Providers.Hooks.{Hook, Lifecycle}
use hermet.Providers.Shards.{ShardingConfig}
use hermet.Providers.Shards.Configs.{
  biz_user_shard_helper, user_contact_shard_helper, contact_application_shard_helper,
  channel_application_shard_helper,
}
use hermet.Providers.Databases.Hooked.{hooked_db_clients}
use hermet.Providers.Databases.{DbConfig, Databases, Driver, load_db}
use hermet.Providers.Clients.{RedisConfig, RedisLib, new_redis_cmdable, session_handler}
use hermet.Providers.Tokens.{JwtConfig, ClaimsConfig, Managers, new_jwt_manager, new_jwt_builder}
use hermet.App.Libraries.{
  Settings, Libraries, Storage, Security, application_service_of, auth_of, contact_of, admin_of,
  builders_of,
}
use hermet.App.{WebConfig, App, NetHttp, Fx, init_app}
use hermet.App.Guarded.{jwt_middleware}

-- The world, and what fx keeps.
pub record Boot (E S : Type 0) : Type 0 where
  pub world : S
  pub fx : Fx E S

module _ {E S A : Type 0} where
  abbrev put_both : Outcome A × (S × Lifecycle S) → Boot E S → Outcome A × Boot E S
  put_both (r, (s, l)) b = (r, record { world = s; fx = record b.fx { hooks = l } })

  abbrev put_hooks : Outcome A × Lifecycle S → Boot E S → Outcome A × Boot E S
  put_hooks (r, l) b = (r, record b { fx = record b.fx { hooks = l } })

  abbrev pub put_fx : Outcome A × Fx E S → Boot E S → Outcome A × Boot E S
  put_fx (r, fx) b = (r, record b { fx = fx })

  unfoldable pub on_both : Exec (S × Lifecycle S) A → Exec (Boot E S) A
  on_both m b = put_both (m (b.world, b.fx.hooks)) b

  unfoldable pub on_hooks : Exec (Lifecycle S) A → Exec (Boot E S) A
  on_hooks m b = put_hooks (m b.fx.hooks) b

  unfoldable pub on_fx : Exec (Fx E S) A → Exec (Boot E S) A
  on_fx m b = put_fx (m b.fx) b

module _ {B S Sql Client : Type 0} (lib : Libraries B S Sql Client) (set : Settings) where
  unfoldable pub helpers : Databases Db → Outcome (Storage S)
  helpers dbs =
      then_do (biz_user_shard_helper set.sharding lib.id_generator extract_shard_val) (λ users.
        then_do (user_contact_shard_helper set.sharding lib.id_generator extract_shard_val)
          (λ contacts.
            then_do
              (contact_application_shard_helper set.sharding lib.id_generator extract_shard_val)
              (λ contact_applications.
                then_do
                  (channel_application_shard_helper set.sharding lib.id_generator extract_shard_val)
                  (λ channel_applications. ok (record {
                    dbs = dbs;
                    biz_users = users;
                    user_contacts = contacts;
                    contact_applications = contact_applications;
                    channel_applications = channel_applications;
                  })))))

  unfoldable pub secured : Client → Outcome (Security S)
  secured client =
      then_do (session_handler (some (lib.commands client)) set.expiration) (λ sessions.
        then_do (new_jwt_manager set.jwt lib.new_ed25519_manager) (λ managers.
          then_do (configured_cors_builder lib.hostname set.cors) (λ cors.
            then_do (new_jwt_builder (as_handler sessions) managers.at_manager set.ignores) (λ jwt.
              ok (record { sessions = sessions; managers = managers; cors = cors; jwt = jwt })))))

  module _ {E : Type 0} where
    unfoldable pub storage : Exec (Boot E S) (Storage S)
    storage = do
      cfg ← lift set.db
      dbs ← on_both (hooked_db_clients lib.driver cfg)
      lift (helpers dbs)

    unfoldable pub security : Exec (Boot E S) (Security S)
    security = do client ← on_hooks (new_redis_cmdable lib.redis set.redis); lift (secured client)

  module _ {E : Type 0} (gin : Gin B S Payload E) where
    unfoldable pub assemble : Exec (Boot E S) App
    assemble = do
      st ← storage
      sec ← security
      on_fx (
          init_app gin lib.http lib.go set.web (builders_of lib sec) (
            registries lib.bind lib.go gin (auth_of lib st sec) (contact_of lib st)
              (admin_of lib st)))
