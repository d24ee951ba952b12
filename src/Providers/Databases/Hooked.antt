-- ===== src/Providers/Databases/Hooked.antt =====
-- db.go whole: each database that is opened puts a hook behind the others, which closes it at the stop
-- of the program.
use mathlib.Core.List.{append_assoc, append-nil}
use hermet.Base.{
  suc, true, All, ◌≡◌, refl, sym, ap, ◌∙◌, Option, none, some, List, [], ◌∷◌, ◌++◌, map, length,
  Error, errorf, wrap, Outcome, ok, err, panic, pending, Exec, check, resume, return, fail, ◌>>=◌,
  check-eq-ok, >>=-eq-ok,
}
use hermet.Log.{ZapLogger, LogLevel, new_zap_logger}
use hermet.Providers.Hooks.{Hook, Lifecycle, or_wrap}
use hermet.Providers.Databases.{
  DbShard, DbConfig, Databases, Driver, level_of, store_db, load_db, close_all, open_all,
  with_level, new_db_sharding_clients,
}
use hermet.Providers.Databases.Opened.{has_some, new_db_sharding_clients_lem}

module _ {S Db Sql : Type 0} (driver : Driver S Db Sql) where
  -- The world, and the hooks of the life cycle.
  abbrev pub World : Type 0
  World = S × Lifecycle S

  abbrev pub outside : {A : Type 0} → Exec S A → Exec World A
  outside m (s, hooks) = ((m s).0, ((m s).1, hooks))

  abbrev pub db_hook : Sql → Hook S
  db_hook sql = record {
    on_start = none;
    on_stop = some (or_wrap "failed to close db connection: %w" (driver.close_sql sql));
  }

  abbrev pub add_hook : Sql → Exec World (Unit {0})
  add_hook sql (s, hooks) = (ok tt, (s, hooks ++ db_hook sql ∷ []))

  -- Close what was opened, and fail.
  abbrev clean_up : List Db → Error → Exec World (Databases Db)
  clean_up opened e = outside (close_all driver opened) >>= (λ _. fail e)

  module _ (logger : ZapLogger) where
    unfoldable pub open_hooked : List DbShard → List Db → Databases Db → Exec World (Databases Db)
    open_hooked [] opened dbs = return dbs
    open_hooked (c ∷ l) opened dbs =
        check (outside (driver.open_db c.dsn logger))
          (λ e. clean_up opened (wrap "failed to open db [ %s ]: %w" e))
          (λ db.
            check (outside (driver.sql_db db))
              (λ e. clean_up opened (wrap "failed to get sql db [ %s ]: %w" e))
              (λ sql.
                add_hook sql >>= (λ _. open_hooked l (opened ++ db ∷ []) (store_db c.name db dbs))))

  abbrev hooked_with_level : DbConfig → Option LogLevel → Exec World (Databases Db)
  hooked_with_level cfg none = fail (errorf "invalid log level: %s" (cfg.log_level ∷ []))
  hooked_with_level cfg (some level) =
      open_hooked
        (new_zap_logger (some level) (some cfg.slow_threshold)
          (some cfg.ignore_record_not_found_error))
        cfg.sharding [] []

  -- `newDBShardingClients` whole
  unfoldable pub hooked_db_clients : DbConfig → Exec World (Databases Db)
  hooked_db_clients cfg = hooked_with_level cfg (level_of cfg.log_level)

  -- A call with hooks that does to the world what a call without them does.
  abbrev Simulates : {A : Type 0} → Exec World A → Exec S A → Type 0
  Simulates m n =
      (s : S) (hooks : Lifecycle S) → ((m (s, hooks)).0 ≡ (n s).0) × ((m (s, hooks)).1.0 ≡ (n s).1)

  resume-Simulates :
      {A C : Type 0} (o : Outcome A) (f : Error → Exec World C) (g : Error → Exec S C)
      (k : A → Exec World C) (l : A → Exec S C)
      → ((e : Error) → Simulates (f e) (g e))
      → ((a : A) → Simulates (k a) (l a))
      → Simulates (resume o f k) (resume o g l)
  resume-Simulates (ok a) f g k l p q = q a
  resume-Simulates (err e) f g k l p q = p e
  resume-Simulates panic f g k l p q = λ s hooks. (refl, refl)
  resume-Simulates pending f g k l p q = λ s hooks. (refl, refl)

  -- What is done outside, and then more.
  check-Simulates :
      {A C : Type 0} (m : Exec S A) (f : Error → Exec World C) (g : Error → Exec S C)
      (k : A → Exec World C) (l : A → Exec S C)
      → ((e : Error) → Simulates (f e) (g e))
      → ((a : A) → Simulates (k a) (l a))
      → Simulates (check (outside m) f k) (check m g l)
  check-Simulates m f g k l p q s hooks = resume-Simulates (m s).0 f g k l p q (m s).1 hooks

  clean_up-Simulates :
      (opened : List Db) (e : Error)
      → Simulates (clean_up opened e) (close_all driver opened >>= (λ _. fail e))
  clean_up-Simulates opened e =
      check-Simulates (close_all driver opened) fail fail (λ _. fail e) (λ _. fail e)
        (λ d s hooks. (refl, refl)) (λ _ s hooks. (refl, refl))

  open_hooked-Simulates :
      (logger : ZapLogger) (l : List DbShard) (opened : List Db) (dbs : Databases Db)
      → Simulates (open_hooked logger l opened dbs) (open_all driver logger l opened dbs)
  unfolding open_hooked open_all
  open_hooked-Simulates logger [] opened dbs = λ s hooks. (refl, refl)
  open_hooked-Simulates logger (c ∷ l) opened dbs =
      check-Simulates (driver.open_db c.dsn logger) _ _ _ _
        (λ e. clean_up-Simulates opened (wrap "failed to open db [ %s ]: %w" e))
        (λ db.
          check-Simulates (driver.sql_db db) _ _ _ _
            (λ e. clean_up-Simulates opened (wrap "failed to get sql db [ %s ]: %w" e))
            (λ sql s hooks.
              open_hooked-Simulates logger l (opened ++ db ∷ []) (store_db c.name db dbs) s
                (hooks ++ db_hook sql ∷ [])))

  -- One hook for each database of a list, behind the others.
  abbrev pub OneHookEach : List DbShard → Lifecycle S → Lifecycle S → Type 0
  OneHookEach l hooks hooks' =
      (sqls : List Sql) × (length sqls ≡ length l) × (hooks' ≡ hooks ++ map db_hook sqls)

  cleaned_up :
      (opened : List Db) (e : Error) (w : World) {m : Databases Db} {w' : World}
      → clean_up opened e w ≡ (ok m, w')
      → ⊥
  cleaned_up opened e w h =
      let (_, w₁, _, k) = >>=-eq-ok (outside (close_all driver opened)) (λ _. fail e) w h in cc

  open_hooked-OneHookEach :
      (logger : ZapLogger) (l : List DbShard) (opened : List Db) (dbs m : Databases Db)
      (w w' : World)
      → open_hooked logger l opened dbs w ≡ (ok m, w')
      → OneHookEach l w.1 w'.1
  unfolding open_hooked
  open_hooked-OneHookEach logger [] opened dbs m w w' h =
      ([], refl, sym (ap (λ x. x.1.1) h) ∙ sym (append-nil w.1))
  open_hooked-OneHookEach logger (c ∷ l) opened dbs m w w' h =
      let (db, w₁, e₁, h₁) =
        check-eq-ok (outside (driver.open_db c.dsn logger)) _ _ w
          (λ e v k. cleaned_up opened (wrap "failed to open db [ %s ]: %w" e) v k) h in
      let (sql, w₂, e₂, h₂) =
        check-eq-ok (outside (driver.sql_db db)) _ _ w₁
          (λ e v k. cleaned_up opened (wrap "failed to get sql db [ %s ]: %w" e) v k) h₁ in
      let (sqls, n, added) =
        open_hooked-OneHookEach logger l (opened ++ db ∷ []) (store_db c.name db dbs) m
          (w₂.0, w₂.1 ++ db_hook sql ∷ []) w' h₂ in
      (
        sql ∷ sqls,
        ap suc n,
        added
            ∙ append_assoc w₂.1 (db_hook sql ∷ []) (map db_hook sqls)
            ∙ ap (λ x. x ++ db_hook sql ∷ map db_hook sqls)
                (sym (ap (λ x. x.1.1) e₂) ∙ sym (ap (λ x. x.1.1) e₁)),
      )

  by_level :
      (o : Option LogLevel) (cfg : DbConfig) (w w' : World) (m : Databases Db)
      → hooked_with_level cfg o w ≡ (ok m, w')
      → (with_level driver cfg o w.0 ≡ (ok m, w'.0)) × OneHookEach cfg.sharding w.1 w'.1
  by_level none cfg w w' m h = cc
  by_level (some level) cfg w w' m h =
      let logger : ZapLogger =
        new_zap_logger (some level) (some cfg.slow_threshold)
          (some cfg.ignore_record_not_found_error) in
      let (same, world) = open_hooked-Simulates logger cfg.sharding [] [] w.0 w.1 in
      (
        λ i. ((sym same ∙ ap (λ x. x.0) h) i, (sym world ∙ ap (λ x. x.1.0) h) i),
        open_hooked-OneHookEach logger cfg.sharding [] [] m w w' h,
      )

  -- What an opening without an error does: to the world the same as without the hooks, and behind
  -- the hooks that were there a hook for each configured database.
  pub hooked_db_clients-OneHookEach :
      (cfg : DbConfig) (w w' : World) (m : Databases Db)
      → hooked_db_clients cfg w ≡ (ok m, w')
      → (new_db_sharding_clients driver cfg w.0 ≡ (ok m, w'.0)) × OneHookEach cfg.sharding w.1 w'.1
  unfolding hooked_db_clients new_db_sharding_clients
  hooked_db_clients-OneHookEach cfg w w' m h = by_level (level_of cfg.log_level) cfg w w' m h

  pub hooked_db_clients_lem :
      (cfg : DbConfig) (w w' : World) (m : Databases Db)
      → hooked_db_clients cfg w ≡ (ok m, w')
      → (has_some (level_of cfg.log_level) ≡ true)
        × All (λ (c : DbShard). has_some (load_db c.name m) ≡ true) cfg.sharding
        × OneHookEach cfg.sharding w.1 w'.1
  hooked_db_clients_lem cfg w w' m h =
      let (opened, hooks) = hooked_db_clients-OneHookEach cfg w w' m h in
      let (level, loaded) = new_db_sharding_clients_lem driver cfg m w.0 w'.0 opened in
      (level, loaded, hooks)
