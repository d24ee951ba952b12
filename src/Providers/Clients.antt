-- ===== src/Providers/Clients.antt =====
-- internal/pkg/providers: redis.go, zap_logger.go and session_handler.go. The clients' libraries and
-- what viper reads are parameters; the texts of the log are left out.
use hermet.Base.{
  ℤ, String, Option, none, some, same, if◌then◌else◌, Outcome, ok, Exec, lift, return, check, ◌>>=◌,
  then_do,
}
use hermet.Web.Session.{Redis, RedisSessionHandler, new_redis_session_handler}
use hermet.Providers.Hooks.{Hook, Lifecycle, append, or_wrap}

pub record RedisConfig : Type 0 where
  pub addr : String
  pub password : String

-- `redis.NewClient`, `Ping` and `Close`
pub record RedisLib (S Client : Type 0) : Type 0 where
  pub new_client : RedisConfig → Client
  pub ping : Client → Exec S (Unit {0})
  pub close_client : Client → Exec S (Unit {0})

module _ {S Client : Type 0} (lib : RedisLib S Client) where
  abbrev pub redis_hook : Client → Hook S
  redis_hook rdb = record {
    on_start = some (or_wrap "failed to ping redis: %w" (lib.ping rdb));
    on_stop = some (or_wrap "failed to close redis: %w" (lib.close_client rdb));
  }

  -- `newRedisCmdable`, over what viper reads for "redis"
  unfoldable pub new_redis_cmdable : Outcome RedisConfig → Exec (Lifecycle S) Client
  new_redis_cmdable read = do
    cfg ← lift read
    hooked ← append (redis_hook (lib.new_client cfg))
    return (lib.new_client cfg)

-- `zap.NewProduction`, `zap.NewDevelopment` and `Sync`
pub record Zap (S Logger : Type 0) : Type 0 where
  pub new_production : Outcome Logger
  pub new_development : Outcome Logger
  pub sync : Logger → Exec S (Unit {0})

module _ {S Logger : Type 0} (zap : Zap S Logger) where
  abbrev pub logger_for : String → Outcome Logger
  logger_for env = if same env "prod" then zap.new_production else zap.new_development

  -- A failure to write what is left is ignored.
  abbrev pub logger_hook : Logger → Hook S
  logger_hook logger = record {
    on_start = none;
    on_stop = some (check (zap.sync logger) (λ _. return tt) (λ _. return tt));
  }

  -- The logger behind slog's default, and the hooks.
  abbrev pub Logging : Type 0
  Logging = Option Logger × Lifecycle S

  -- `slog.SetDefault`
  abbrev pub set_default : Logger → Exec Logging (Unit {0})
  set_default logger w = (ok tt, (some logger, w.1))

  abbrev pub beside_default : {A : Type 0} → Exec (Lifecycle S) A → Exec Logging A
  beside_default m w = ((m w.1).0, (w.0, (m w.1).1))

  -- `newZapLogger`, over the `env` that viper reads under "project"
  unfoldable pub new_logger : Outcome String → Exec Logging Logger
  new_logger read = do
    env ← lift read
    logger ← lift (logger_for env)
    default ← set_default logger
    hooked ← beside_default (append (logger_hook logger))
    return logger

-- `newRedisSessionHandler`, over what viper reads for "hermet.session.expiration"
unfoldable pub session_handler :
    {S : Type 0} → Option (Redis S) → Outcome ℤ → Outcome (RedisSessionHandler S)
session_handler rdb read = then_do read (λ expiration. new_redis_session_handler rdb expiration)
