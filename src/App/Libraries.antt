-- ===== src/App/Libraries.antt =====
-- The module.go files of internal: the libraries that the program stands on, and the services and
-- handlers that are made over them.
use hermet.Base.{ℕ, ℤ, String, List, [], ◌∷◌, Outcome, Exec}
use hermet.Sharding.Sharder.{Hash}
use hermet.Sharding.Helper.{IdGenerator, ShardHelper}
use hermet.Dao.Entities
use hermet.Dao.Gorm.{Db, Gorm, Sharded}
use hermet.Dao.BizUser.{biz_user_dao}
use hermet.Dao.UserContact.{user_contact_dao}
use hermet.Dao.ContactApplication.{contact_application_dao}
use hermet.Dao.ChannelApplication.{channel_application_dao}
use hermet.Repo.Repos.{
  default_biz_user_repo, default_user_contact_repo, default_contact_application_repo,
  default_channel_application_repo,
}
use hermet.Service.User.{Bcrypt, UserService, default_user_service}
use hermet.Service.Auth.{DefaultAuthService, default_auth_service}
use hermet.Service.Application.{DefaultApplicationService, default_application_service}
use hermet.Web.Jwt.{Manager, JwtBuilder}
use hermet.Web.Session.{Redis, RedisSessionHandler, as_handler}
use hermet.Web.Cors.{Hostname, CorsBuilder, Config, build_cors}
use hermet.Web.Engine.{Middleware, HandlerFuncBuilder}
use hermet.Api.Auth.{AuthHandler}
use hermet.Api.Routes.{Payload, Binding, ContactHandler, AdminHandler}
use hermet.Providers.Shards.{ShardingConfig}
use hermet.Providers.Databases.{DbConfig, Databases, Driver, load_db}
use hermet.Providers.Clients.{RedisConfig, RedisLib}
use hermet.Providers.Tokens.{JwtConfig, ClaimsConfig, Managers}
use hermet.App.{WebConfig, NetHttp}
use hermet.App.Guarded.{jwt_middleware}

-- What viper reads under each key.
pub record Settings : Type 0 where
  pub db : Outcome DbConfig
  pub sharding : String → Outcome ShardingConfig
  pub redis : Outcome RedisConfig
  pub expiration : Outcome ℤ
  pub jwt : String → Outcome JwtConfig
  pub cors : Outcome (ℕ × List String)
  pub ignores : Outcome (List String)
  pub web : Outcome WebConfig

-- The libraries that the program stands on, over the state `S` of the world outside.
pub record Libraries (B S Sql Client : Type 0) : Type 0 where
  pub driver : Driver S Db Sql
  pub users : Gorm S Entities.BizUser
  pub contacts : Gorm S Entities.UserContact
  pub contact_applications : Gorm S Entities.ContactApplication
  pub channel_applications : Gorm S Entities.ChannelApplication
  pub now : Exec S ℕ
  pub sum64 : Hash
  pub id_generator : IdGenerator S
  pub redis : RedisLib S Client
  pub commands : Client → Redis S
  pub new_ed25519_manager : String → String → ClaimsConfig → Outcome (Manager S)
  pub bcrypt : Bcrypt S
  pub new_uuid : Exec S String
  pub hostname : Hostname
  pub new_cors : Config → Middleware B S Payload
  pub bind : Binding B
  pub go : Exec S (Unit {0}) → Exec S (Unit {0})
  pub http : NetHttp S

-- The four helpers, and the databases.
pub record Storage (S : Type 0) : Type 0 where
  pub dbs : Databases Db
  pub biz_users : ShardHelper S
  pub user_contacts : ShardHelper S
  pub contact_applications : ShardHelper S
  pub channel_applications : ShardHelper S

-- Sessions, the managers of tokens, and the middleware.
pub record Security (S : Type 0) : Type 0 where
  pub sessions : RedisSessionHandler S
  pub managers : Managers S
  pub cors : CorsBuilder
  pub jwt : JwtBuilder S

module _ {B S Sql Client : Type 0} (lib : Libraries B S Sql Client) where
  -- The data access objects of the databases.
  abbrev pub rows_of : {R : Type 0} → Storage S → ShardHelper S → Gorm S R → Sharded S R
  rows_of st helper gorm = record {
    dbs = λ name. load_db name st.dbs;
    shard_helper = helper;
    gorm = gorm;
    now = lib.now;
    sum64 = lib.sum64;
  }

  abbrev pub applications_of : Storage S → Sharded S Entities.ContactApplication
  applications_of st = rows_of st st.contact_applications lib.contact_applications

  abbrev pub application_service_of : Storage S → DefaultApplicationService S
  application_service_of st = record {
    biz_user_repo = default_biz_user_repo (biz_user_dao (rows_of st st.biz_users lib.users));
    user_contact_repo =
        default_user_contact_repo (user_contact_dao (rows_of st st.user_contacts lib.contacts));
    contact_application_repo =
        default_contact_application_repo (contact_application_dao (applications_of st));
    channel_application_repo =
        default_channel_application_repo
          (channel_application_dao (rows_of st st.channel_applications lib.channel_applications));
  }

  abbrev pub user_service_of : Storage S → UserService S
  user_service_of st =
      default_user_service
        (default_biz_user_repo (biz_user_dao (rows_of st st.biz_users lib.users))) lib.bcrypt
        lib.now

  abbrev pub auth_service_of : Storage S → Security S → DefaultAuthService S
  auth_service_of st sec = record {
    repo = default_biz_user_repo (biz_user_dao (rows_of st st.biz_users lib.users));
    at_manager = sec.managers.at_manager;
    rt_manager = sec.managers.rt_manager;
    bcrypt = lib.bcrypt;
    new_uuid = lib.new_uuid;
  }

  abbrev pub auth_of : Storage S → Security S → AuthHandler S
  auth_of st sec = record {
    session = as_handler sec.sessions;
    svc = default_auth_service (auth_service_of st sec);
  }

  abbrev pub contact_of : Storage S → ContactHandler S
  contact_of st = record {
    user_svc = user_service_of st;
    application_svc = default_application_service (application_service_of st);
  }

  abbrev pub admin_of : Storage S → AdminHandler S
  admin_of st = record { user_service = user_service_of st }

  -- The group of middleware, in the order of the module.
  abbrev pub builders_of : Security S → List (HandlerFuncBuilder B S Payload)
  builders_of sec =
      record { build = build_cors lib.new_cors sec.cors }
      ∷ record { build = jwt_middleware sec.jwt }
      ∷ []
