-- ===== src/Tests/Assembled.antt =====
-- The program that is assembled (cmd/main.go and the modules of internal) over libraries in memory, and
-- one request to it.
use hermet.Base.{
  ℕ, pos, ◌≡◌, refl, true, none, [], ◌∷◌, sentinel, inr, gorm_record_not_found, Outcome, ok, err,
  return,
}
use hermet.Base.Decimal
use hermet.Domain.{zero_biz_user, source_is_valid}
use hermet.Snowflake.{extract_shard_val}
use hermet.Sharding.Sharder.{shard_val}
use hermet.Sharding.Modulo
use hermet.Sharding.Balanced
use hermet.Sharding.Helper
use hermet.Sharding.Helper.{next_id_and_shard, new_shard_helper}
use hermet.Dao.Gorm.{Gorm}
use hermet.Dao.BizUser
use hermet.Dao.UserContact
use hermet.Dao.ContactApplication
use hermet.Repo.Convert.{
  user_to_entity, user_to_domain, application_to_entity, application_to_domain,
}
use hermet.Repo.Repos.{
  default_biz_user_repo, find_user_by_id, default_user_contact_repo, find_contact,
  default_contact_application_repo, save_application,
}
use hermet.Service.Application
use hermet.Service.Application.{
  application_for, submit, unless_contact, default_application_service,
}
use hermet.Api.Contact
use hermet.Api.Contact.{event_for}
use hermet.Api.Routes.{Payload, auth_routes, contact_routes, admin_routes, registries}
use hermet.Web.{bu, write_res, extract_auth_user, json, Response}
use hermet.Web.Jwt.{build, strip, trim_prefix}
use hermet.Web.Session.{Redis, new_redis_session_handler}
use hermet.Web.Cors.{build_cors, configured_cors_builder, contains}
use hermet.Web.Engine.{handle_all, register_all}
use hermet.Providers.Hooks.{append}
use hermet.Providers.Shards.{shard_helper}
use hermet.Providers.Shards.Configs.{
  biz_user_shard_helper, user_contact_shard_helper, contact_application_shard_helper,
  channel_application_shard_helper,
}
use hermet.Providers.Databases.{Driver, level_of, store_db, load_db}
use hermet.Providers.Databases.Hooked.{open_hooked, hooked_db_clients}
use hermet.Providers.Clients.{new_redis_cmdable, session_handler}
use hermet.Providers.Tokens.{
  load_jwt_config, new_access_token_manager, new_refresh_token_manager, new_jwt_manager,
  new_jwt_builder,
}
use hermet.App.{App, on_engine, append_hook, load_web_config, new_server, use_builders, init_app}
use hermet.App.Libraries.{Settings, Libraries}
use hermet.App.Assembly.{
  Boot, on_both, on_hooks, on_fx, helpers, secured, storage, security, assemble,
}
use hermet.App.Assembly.Served.{ServedBy, assemble-ServedBy}
use hermet.Tests.Store
use hermet.Tests.Engine.{Table, in_memory, in_memory-Documented, fresh_engine}
use hermet.Tests.Contacts.{W, counter, table_config, start, request}
use hermet.Tests.Requests.{ann_manager, bind, at_once, http_server, cfg, http}

abbrev driver : Driver W ℕ ℕ
driver = record {
  open_db = λ dsn lg s. (ok 1, s);
  sql_db = λ db s. (ok db, s);
  close_sql = λ sql s. (ok tt, s);
}

-- Tables that hold one row, or none, whatever is asked.
abbrev holding : {R : Type 0} → Outcome R → Gorm W R
holding r = record {
  create = λ db tb row s. (ok row, s);
  first = λ db tb p s. (r, s);
  find = λ db tb p s. (ok [], s);
  update = λ db tb p f s. (ok tt, s);
}

abbrev no_keys : Redis W
no_keys = record {
  set_key = λ k v d s. (ok tt, s);
  get_key = λ k s. (ok 0, s);
  expire_key = λ k d s. (ok tt, s);
  del_key = λ k s. (ok tt, s);
}

abbrev libraries : Libraries (Unit {0}) W ℕ ℕ
libraries = record {
  driver = driver;
  users = holding (ok (user_to_entity (record zero_biz_user { id = 3; nickname = "Ann" })));
  contacts = holding (err (sentinel gorm_record_not_found));
  contact_applications = Store.in_memory;
  channel_applications = holding (err (sentinel gorm_record_not_found));
  now = λ s. (ok 1000, s);
  sum64 = λ l. 5;
  id_generator = counter;
  redis = record {
    new_client = λ cfg. 1;
    ping = λ c s. (ok tt, s);
    close_client = λ c s. (ok tt, s);
  };
  commands = λ c. no_keys;
  new_ed25519_manager = λ private public claims. ok ann_manager;
  bcrypt = record { generate = λ p. return "hash"; compare = λ h p. return tt };
  new_uuid = return "s";
  hostname = λ origin. ok origin;
  new_cors = λ c http before next. next before;
  bind = bind;
  go = at_once;
  http = http_server;
}

abbrev settings : Settings
settings = record {
  db = ok (record {
    log_level = "warn";
    slow_threshold = pos 100;
    ignore_record_not_found_error = true;
    sharding =
        record { name = "hermet_0"; dsn = "a" } ∷ record { name = "hermet_1"; dsn = "b" } ∷ [];
  });
  sharding = λ key. ok table_config;
  redis = ok (record { addr = "a"; password = "p" });
  expiration = ok (pos 3600);
  jwt = λ key. ok (record { issuer = key; expiration = 60; private_key = "a"; public_key = "b" });
  cors = ok (5, []);
  ignores = ok ("/api/v1/auth/sign-in" ∷ "/api/v1/auth/refresh-token" ∷ []);
  web = ok cfg;
}

abbrev boot : Boot (Table (Unit {0}) W Payload) W
boot = record { world = start; fx = record { engine = fresh_engine; hooks = [] } }

abbrev assembled : Outcome App × Boot (Table (Unit {0}) W Payload) W
assembled = assemble libraries settings in_memory boot

returns : assembled.0 ≡ ok (record { svr = new_server cfg })
unfolding assemble storage security helpers secured on_both on_hooks on_fx hooked_db_clients
    open_hooked level_of store_db biz_user_shard_helper user_contact_shard_helper
    contact_application_shard_helper channel_application_shard_helper shard_helper
    Modulo.new_modulo_sharding Balanced.new_balanced_sharding new_shard_helper new_redis_cmdable
    append session_handler new_redis_session_handler new_jwt_manager new_access_token_manager
    new_refresh_token_manager load_jwt_config configured_cors_builder new_jwt_builder init_app
    load_web_config on_engine use_builders register_all registries handle_all auth_routes
    contact_routes admin_routes append_hook new_server
returns = refl

abbrev answered : Outcome (Response Payload) × W
answered = in_memory.serve assembled.1.fx.engine http none start

is_answered : answered.0 ≡ ok (json 200 (record { code = 200; msg = ""; payload = none }))
unfolding assemble storage security helpers secured on_both on_hooks on_fx hooked_db_clients
    open_hooked level_of store_db load_db biz_user_shard_helper user_contact_shard_helper
    contact_application_shard_helper channel_application_shard_helper shard_helper
    Modulo.new_modulo_sharding Balanced.new_balanced_sharding new_shard_helper new_redis_cmdable
    append session_handler new_redis_session_handler new_jwt_manager new_access_token_manager
    new_refresh_token_manager load_jwt_config configured_cors_builder new_jwt_builder init_app
    load_web_config on_engine use_builders register_all registries handle_all auth_routes
    contact_routes admin_routes append_hook new_server build_cors contains build strip trim_prefix
    bu write_res extract_auth_user Contact.apply_contact source_is_valid event_for
    default_application_service Application.apply_contact submit unless_contact
    default_biz_user_repo find_user_by_id default_user_contact_repo find_contact
    default_contact_application_repo save_application extract_shard_val BizUser.biz_user_dao
    BizUser.find_by_id UserContact.user_contact_dao UserContact.find_by_user_id_and_contact_id
    ContactApplication.contact_application_dao ContactApplication.save ContactApplication.put
    next_id_and_shard Helper.dst_from_id Helper.dst_from_sharder shard_val Modulo.as_strategy
    Balanced.as_strategy Modulo.shard Modulo.dst_from_id Modulo.dst_from_shard_val Modulo.dst_at
    Decimal.suffixed user_to_entity user_to_domain application_to_entity application_to_domain
    application_for
is_answered = refl

assemble-ServedBy_example :
    ServedBy in_memory in_memory-Documented libraries settings boot http request start answered.1
unfolding contains
assemble-ServedBy_example =
    assemble-ServedBy in_memory in_memory-Documented libraries settings Store.in_memory-Reliable
      boot assembled.1 (record { svr = new_server cfg })
      ("/api/v1/auth/sign-in" ∷ "/api/v1/auth/refresh-token" ∷ []) http request start answered.1 200
      (record { code = 200; msg = ""; payload = none }) (λ i. (returns i, assembled.1))
      (λ m p. refl) tt (λ c http before next s s' r e. inr e) refl refl refl refl refl
      (λ i. (is_answered i, answered.1))
