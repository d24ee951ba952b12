-- ===== src/Providers/Databases.antt =====
-- internal/pkg/providers/db.go: opening the sharded databases. `Hooked` adds what runs at the stop of
-- the program; the texts of the log are left out.
pub mod Opened
pub mod Cleanup
pub mod Hooked
use hermet.Base.{
  ℕ, String, ℤ, Bool, Option, none, some, List, [], ◌∷◌, ◌++◌, same, if◌then◌else◌, Error, errorf,
  wrap, Outcome, ok, err, Exec, check, return, fail, ◌>>=◌,
}
use hermet.Log.{ZapLogger, LogLevel, silent, error, warn, info, new_zap_logger}

pub record DbShard : Type 0 where
  pub name : String
  pub dsn : String

pub record DbConfig : Type 0 where
  pub log_level : String
  pub slow_threshold : ℤ
  pub ignore_record_not_found_error : Bool
  pub sharding : List DbShard

-- The switch on the configured level.
unfoldable pub level_of : String → Option LogLevel
level_of level =
    if same level "silent"
    then some silent
    else if same level "error"
    then some error
    else if same level "warn"
    then some warn
    else if same level "info"
    then some info
    else none

-- `xsync.Map[string, *gorm.DB]`
abbrev pub Databases : Type 0 → Type 0
Databases Db = List (String × Db)

module _ {Db : Type 0} where
  unfoldable pub store_db : String → Db → Databases Db → Databases Db
  store_db k v [] = (k, v) ∷ []
  store_db k v ((j, w) ∷ m) = if same j k then (j, v) ∷ m else (j, w) ∷ store_db k v m

  unfoldable pub load_db : String → Databases Db → Option Db
  load_db k [] = none
  load_db k ((j, v) ∷ m) = if same j k then some v else load_db k m

-- `gorm.Open`, `db.DB()` and `sqlDB.Close()`. Where `DB()` fails it gives no `sql.DB`.
pub record Driver (S Db Sql : Type 0) : Type 0 where
  pub open_db : String → ZapLogger → Exec S Db
  pub sql_db : Db → Exec S Sql
  pub close_sql : Sql → Exec S (Unit {0})

module _ {S Db Sql : Type 0} (driver : Driver S Db Sql) where
  abbrev pub ignore_error : Exec S (Unit {0}) → Exec S (Unit {0})
  ignore_error m = check m (λ _. return tt) (λ _. return tt)

  -- The cleanup: close what was opened, and ignore what fails.
  unfoldable pub close_all : List Db → Exec S (Unit {0})
  close_all [] = return tt
  close_all (db ∷ dbs) =
      check (driver.sql_db db) (λ _. return tt) (λ sql. ignore_error (driver.close_sql sql))
      >>= (λ _. close_all dbs)

  module _ (logger : ZapLogger) where
    unfoldable pub open_all : List DbShard → List Db → Databases Db → Exec S (Databases Db)
    open_all [] opened dbs = return dbs
    open_all (s ∷ l) opened dbs =
        check (driver.open_db s.dsn logger)
          (λ e. close_all opened >>= (λ _. fail (wrap "failed to open db [ %s ]: %w" e)))
          (λ db.
            check (driver.sql_db db)
              (λ e. close_all opened >>= (λ _. fail (wrap "failed to get sql db [ %s ]: %w" e)))
              (λ sql. open_all l (opened ++ db ∷ []) (store_db s.name db dbs)))

  abbrev pub with_level : DbConfig → Option LogLevel → Exec S (Databases Db)
  with_level cfg none = fail (errorf "invalid log level: %s" (cfg.log_level ∷ []))
  with_level cfg (some level) =
      open_all
        (new_zap_logger (some level) (some cfg.slow_threshold)
          (some cfg.ignore_record_not_found_error))
        cfg.sharding [] []

  unfoldable pub new_db_sharding_clients : DbConfig → Exec S (Databases Db)
  new_db_sharding_clients cfg = with_level cfg (level_of cfg.log_level)
