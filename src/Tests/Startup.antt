-- ===== src/Tests/Startup.antt =====
-- What is put together at the start (internal/pkg/providers) and the database log
-- (internal/pkg/xgorm), at concrete configurations.
use hermet.Base.{All, suc, ℕ, ◌≡◌, ◌↔◌, refl, true, none, [], ◌∷◌, pos, ok, Exec, return, arith}
use hermet.Snowflake.{extract_shard_val}
use hermet.Providers.Shards.{
  ShardingConfig, shard_helper, configured, shard_helper-eq-ok, Configured,
}
use hermet.Providers.OAuth.{
  OauthMechanism, Http, new_kafka_oauth_mechanism, lifetime, add_duration, store_token,
  request_token, fetch_token, get_access_token,
}
use hermet.Providers.OAuth.Cache.{Fetched, fetch_token-Fetched, get_access_token-Fetched}
use hermet.Providers.Databases.{Databases, DbShard, DbConfig, Driver, level_of, store_db, load_db}
use hermet.Providers.Databases.Opened.{has_some}
use hermet.Providers.Databases.Hooked.{
  db_hook, open_hooked, hooked_db_clients, OneHookEach, hooked_db_clients_lem,
}
use hermet.Log.{ZapLogger, new_zap_logger}

abbrev counter : ℕ → Exec ℕ ℕ
counter v n = (ok n, n)

abbrev users : ShardingConfig
users = record {
  db_prefix = "hermet";
  tb_prefix = "biz_user";
  db_shard_count = 2;
  tb_shard_count = 4;
}

shard_helper-eq-ok_example :
    (shard_helper counter extract_shard_val users ≡ ok (configured counter extract_shard_val users))
    ↔ Configured counter extract_shard_val users (configured counter extract_shard_val users)
shard_helper-eq-ok_example =
    shard_helper-eq-ok counter extract_shard_val users (configured counter extract_shard_val users)

-- A clock that stands still at the instant of the world, and a server that gives a token for an
-- hour.
abbrev server : Http ℕ ℕ ℕ
server = record {
  now = λ w. (ok w, w);
  new_request = λ endpoint id secret w. (ok 1, w);
  do_request = λ req w. (ok 1, w);
  read_all = λ resp w. (ok "body", w);
  status_code = λ resp. 200;
  unmarshal =
      λ body. ok (record { access_token = "token"; token_type = "Bearer"; expires_in = 3600 });
}

abbrev started : OauthMechanism
started = new_kafka_oauth_mechanism "https://auth" "client" "secret"

abbrev holding : OauthMechanism
holding = record {
  endpoint = "https://auth";
  client_id = "client";
  client_secret = "secret";
  access_token = "token";
  expires_at = 3540000000100;
}

first_fetch : fetch_token server (started, 100) ≡ (ok "token", (holding, 100))
unfolding fetch_token request_token store_token add_duration lifetime new_kafka_oauth_mechanism
first_fetch = refl

first_Fetched : Fetched server holding "token"
unfolding add_duration lifetime
first_Fetched = record {
  res = record { access_token = "token"; token_type = "Bearer"; expires_in = 3600 };
  t = 100;
  before = 100;
  after = 100;
  clock = refl;
  given = refl;
  cached = refl;
  expiry = refl;
}

abbrev idle : Exec (OauthMechanism × ℕ) (Unit {0})
idle = return tt

fetch_token-Fetched_example : Fetched server holding "token"
fetch_token-Fetched_example =
    fetch_token-Fetched server (started, 100) holding 100 "token" first_fetch

get_access_token-Fetched_example :
    get_access_token server idle (holding, 3540000000099) ≡ (ok "token", (holding, 3540000000099))
unfolding first_Fetched
get_access_token-Fetched_example =
    get_access_token-Fetched server idle holding "token" first_Fetched 3540000000099 3540000000099
      3540000000099 (λ e. cc) (omega arith) (omega arith) refl (omega arith)

abbrev logger : ZapLogger
logger = new_zap_logger none none none

-- A driver whose databases are numbered as they are opened.
abbrev numbering : Driver ℕ ℕ ℕ
numbering = record {
  open_db = λ dsn lg n. (ok n, suc n);
  sql_db = λ db n. (ok db, n);
  close_sql = λ sql n. (ok tt, n);
}

abbrev db_config : DbConfig
db_config = record {
  log_level = "warn";
  slow_threshold = pos 100;
  ignore_record_not_found_error = true;
  sharding = record { name = "hermet_0"; dsn = "a" } ∷ record { name = "hermet_1"; dsn = "b" } ∷ [];
}

abbrev two_opened : Databases ℕ
two_opened = ("hermet_0", 0) ∷ ("hermet_1", 1) ∷ []

two_hooked :
    hooked_db_clients numbering db_config (0, [])
    ≡ (ok two_opened, (2, db_hook numbering 0 ∷ db_hook numbering 1 ∷ []))
unfolding hooked_db_clients open_hooked store_db level_of
two_hooked = refl

hooked_db_clients_lem_example :
    (has_some (level_of "warn") ≡ true)
    × All (λ (c : DbShard). has_some (load_db c.name two_opened) ≡ true) db_config.sharding
    × OneHookEach numbering db_config.sharding [] (db_hook numbering 0 ∷ db_hook numbering 1 ∷ [])
hooked_db_clients_lem_example =
    hooked_db_clients_lem numbering db_config (0, [])
      (2, db_hook numbering 0 ∷ db_hook numbering 1 ∷ []) two_opened two_hooked
