-- ===== src/Providers/Databases/Opened.antt =====
-- db.go: after a start without an error every configured database is there.
use hermet.Base.{
  ◌≡◌, refl, sym, ap, ◌∙◌, String, Bool, true, false, Option, none, some, List, [], ◌∷◌, ◌++◌, All,
  same, same_iff, same_refl, if◌then◌else◌, Error, wrap, ok, fail, ◌>>=◌, >>=-eq-ok, check-eq-ok,
  arith,
}
use hermet.Log.{ZapLogger, LogLevel, new_zap_logger}
use hermet.Providers.Databases.{
  DbShard, DbConfig, level_of, Databases, store_db, load_db, Driver, open_all, close_all,
  with_level, new_db_sharding_clients,
}

-- The map has a database under the name.
abbrev pub has_some : {A : Type 0} → Option A → Bool
has_some none = false
has_some (some a) = true

load_db-store_db :
    {Db : Type 0} (k j : String) (v : Db) (m : Databases Db)
    → load_db j (store_db k v m) ≡ (if same k j then some v else load_db j m)
unfolding load_db store_db
load_db-store_db k j v [] = refl
load_db-store_db k j v ((i, w) ∷ m) =
    ground (arith, same_iff k j, same_iff i k, same_iff i j, load_db-store_db k j v m)

stays :
    {Db : Type 0} (k j : String) (v : Db) (m : Databases Db)
    → has_some (load_db j m) ≡ true
    → has_some (load_db j (store_db k v m)) ≡ true
stays k j v m h = ground (arith, load_db-store_db k j v m)

module _ {S Db Sql : Type 0} (driver : Driver S Db Sql) (logger : ZapLogger) where
  -- One turn of the loop that did not fail.
  turn :
      (c : DbShard) (l : List DbShard) (opened : List Db) (dbs m : Databases Db) (s s' : S)
      → open_all driver logger (c ∷ l) opened dbs s ≡ (ok m, s')
      → (db : Db) × (s₂ : S) × (open_all driver logger l
            (opened ++ db ∷ [])
            (store_db c.name db dbs)
            s₂
          ≡ (ok m, s'))
  unfolding open_all
  turn c l opened dbs m s s' h =
      let (db, s₁, e₁, h₁) =
        check-eq-ok (driver.open_db c.dsn logger) _ _ s
          (λ e t k. failed e opened "failed to open db [ %s ]: %w" t k) h in
      let (sql, s₂, e₂, h₂) =
        check-eq-ok (driver.sql_db db) _ _ s₁
          (λ e t k. failed e opened "failed to get sql db [ %s ]: %w" t k) h₁ in
      (db, s₂, h₂)
    where
      failed :
          (e : Error) (dbs : List Db) (text : String) (t : S)
          → (close_all driver dbs >>= (λ _. fail (wrap text e))) t ≡ (ok m, s')
          → ⊥
      failed e dbs text t k = let (_, t₁, _, k₁) = >>=-eq-ok (close_all driver dbs) _ t k in cc

  keeps :
      (l : List DbShard) (opened : List Db) (dbs m : Databases Db) (s s' : S) (k : String)
      → open_all driver logger l opened dbs s ≡ (ok m, s')
      → has_some (load_db k dbs) ≡ true
      → has_some (load_db k m) ≡ true
  unfolding open_all
  keeps [] opened dbs m s s' k h p =
      let e : dbs ≡ m = cc in ap (λ x. has_some (load_db k x)) (sym e) ∙ p
  keeps (c ∷ l) opened dbs m s s' k h p =
      let (db, s₂, h₂) = turn c l opened dbs m s s' h in
      keeps l (opened ++ db ∷ []) (store_db c.name db dbs) m s₂ s' k h₂ (stays c.name k db dbs p)

  stored :
      (c : DbShard) (db : Db) (dbs : Databases Db)
      → has_some (load_db c.name (store_db c.name db dbs)) ≡ true
  stored c db dbs = ground (arith, load_db-store_db c.name c.name db dbs, same_refl c.name)

  everything_loads :
      (l : List DbShard) (opened : List Db) (dbs m : Databases Db) (s s' : S)
      → open_all driver logger l opened dbs s ≡ (ok m, s')
      → All (λ (c : DbShard). has_some (load_db c.name m) ≡ true) l
  everything_loads [] opened dbs m s s' h = tt
  everything_loads (c ∷ l) opened dbs m s s' h =
      let (db, s₂, h₂) = turn c l opened dbs m s s' h in
      (
        keeps l (opened ++ db ∷ []) (store_db c.name db dbs) m s₂ s' c.name h₂ (stored c db dbs),
        everything_loads l (opened ++ db ∷ []) (store_db c.name db dbs) m s₂ s' h₂,
      )

module _ {S Db Sql : Type 0} (driver : Driver S Db Sql) where
  by_level :
      (o : Option LogLevel) (cfg : DbConfig) (m : Databases Db) (s s' : S)
      → with_level driver cfg o s ≡ (ok m, s')
      → (has_some o ≡ true) × All (λ (c : DbShard). has_some (load_db c.name m) ≡ true) cfg.sharding
  by_level none cfg m s s' h = cc
  by_level (some level) cfg m s s' h = (
    refl,
    everything_loads driver
        (new_zap_logger (some level) (some cfg.slow_threshold)
          (some cfg.ignore_record_not_found_error))
        cfg.sharding [] [] m s s' h,
  )

  -- Where the databases were opened without an error, the configured log level is one of the four
  -- that are known, and the map has a database under each configured name.
  pub new_db_sharding_clients_lem :
      (cfg : DbConfig) (m : Databases Db) (s s' : S)
      → new_db_sharding_clients driver cfg s ≡ (ok m, s')
      → (has_some (level_of cfg.log_level) ≡ true)
        × All (λ (c : DbShard). has_some (load_db c.name m) ≡ true) cfg.sharding
  unfolding new_db_sharding_clients
  new_db_sharding_clients_lem cfg m s s' h = by_level (level_of cfg.log_level) cfg m s s' h
