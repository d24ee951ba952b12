-- ===== src/Providers/Databases/Cleanup.antt =====
-- db.go: what a start that fails leaves open.
use hermet.Base.{
  Option, none, some, All, All-append, ◌⊎◌, inl, inr, ℕ, ◌≡◌, refl, sym, ap, ◌∙◌, Bool, false, not,
  ◌&&◌, ◌||◌, ◌==◌, String, List, [], ◌∷◌, ◌++◌, Error, wrap, Outcome, ok, err, panic, pending,
  check, resume, fail, ◌>>=◌, arith,
}
use hermet.Log.{ZapLogger}
use hermet.Providers.Databases.{
  DbShard, Databases, store_db, Driver, open_all, close_all, ignore_error,
}

-- What gorm and database/sql document, of the databases that are open: `Open` opens one that was
-- not, or none; `DB()` of a database gives its handle, or is an error for one that has none, and
-- changes nothing; `Close` closes this one, whether it answers with an error or not.
pub record Connects {S Sql : Type 0} (driver : Driver S ℕ Sql) : Type 0 where
  pub is_open : S → ℕ → Bool
  pub handle : ℕ → Option Sql
  pub opens :
      (dsn : String) (lg : ZapLogger) (s s' : S) (db : ℕ)
      → driver.open_db dsn lg s ≡ (ok db, s')
      → (is_open s db ≡ false) × ((d : ℕ) → is_open s' d ≡ (is_open s d || d == db))
  pub open_fails :
      (dsn : String) (lg : ZapLogger) (s s' : S) (e : Error)
      → driver.open_db dsn lg s ≡ (err e, s')
      → (d : ℕ) → is_open s' d ≡ is_open s d
  pub gives : (db : ℕ) (sql : Sql) (s : S) → handle db ≡ some sql → driver.sql_db db s ≡ (ok sql, s)
  pub gives_none :
      (db : ℕ) (s : S) → handle db ≡ none → (e : Error) × (driver.sql_db db s ≡ (err e, s))
  pub closes :
      (db : ℕ) (sql : Sql) (s : S)
      → handle db ≡ some sql
      → (s' : S) × (ignore_error driver (driver.close_sql sql) s ≡ (ok tt, s'))
        × ((d : ℕ) → is_open s' d ≡ (is_open s d && not (d == db)))

abbrev mem : ℕ → List ℕ → Bool
mem d [] = false
mem d (x ∷ l) = d == x || mem d l

mem-append : (d x : ℕ) (l : List ℕ) → mem d (l ++ x ∷ []) ≡ (mem d l || d == x)
mem-append d x [] = ground arith
mem-append d x (y ∷ l) = ground (arith, mem-append d x l)

module _ {S Sql : Type 0} (driver : Driver S ℕ Sql) (law : Connects driver) where
  -- Each database of a list has a handle.
  abbrev Handled : List ℕ → Type 0
  Handled l = All (λ db. (sql : Sql) × (law.handle db ≡ some sql)) l

  close_all-closes :
      (l : List ℕ) (s : S)
      → Handled l
      → (s' : S) × (close_all driver l s ≡ (ok tt, s'))
        × ((d : ℕ) → law.is_open s' d ≡ (law.is_open s d && not (mem d l)))
  unfolding close_all
  close_all-closes [] s a = (s, refl, λ d. ground arith)
  close_all-closes (db ∷ l) s ((sql, given), a) =
      let (s₁, e₁, o₁) = law.closes db sql s given in
      let (s₂, e₂, o₂) = close_all-closes l s₁ a in
      (s₂, rw (law.gives db sql s given) (rw e₁ e₂), λ d. ground (arith, o₁ d, o₂ d))

  -- What holds between the turns: beside what was open at the start, `opened` is open.
  record Between (s₀ s : S) (opened : List ℕ) : Type 0 where
    now_open : (d : ℕ) → law.is_open s d ≡ (law.is_open s₀ d || mem d opened)
    was_closed : (d : ℕ) → (law.is_open s₀ d && mem d opened) ≡ false
    handled : Handled opened

  -- The cleanup closes what is in `opened`, and no other database.
  cleaned :
      (opened : List ℕ) (text : String) (x e : Error) (s s' : S)
      → Handled opened
      → (close_all driver opened >>= (λ _. fail {A = Databases ℕ} (wrap text x))) s ≡ (err e, s')
      → (d : ℕ) → law.is_open s' d ≡ (law.is_open s d && not (mem d opened))
  cleaned opened text x e s s' a h d =
      let (s₁, e₁, o₁) = close_all-closes opened s a in
      let k : ◌≡◌ {A = Outcome (Databases ℕ) × S} (err (wrap text x), s₁) (err e, s') =
        rw e₁ at h in
      let q : s₁ ≡ s' = cc in ap (λ t. law.is_open t d) (sym q) ∙ o₁ d

  still-Between :
      (lg : ZapLogger) (dsn : String) (x : Error) (s₀ s t : S) (opened : List ℕ)
      → Between s₀ s opened
      → driver.open_db dsn lg s ≡ (err x, t)
      → Between s₀ t opened
  still-Between lg dsn x s₀ s t opened b h = record {
    now_open = λ d. law.open_fails dsn lg s t x h d ∙ b.now_open d;
    was_closed = b.was_closed;
    handled = b.handled;
  }

  one_more :
      (lg : ZapLogger) (dsn : String) (db : ℕ) (sql : Sql) (s₀ s t : S) (opened : List ℕ)
      → Between s₀ s opened
      → driver.open_db dsn lg s ≡ (ok db, t)
      → law.handle db ≡ some sql
      → Between s₀ t (opened ++ db ∷ [])
  one_more lg dsn db sql s₀ s t opened b h given =
      let (fresh, grown) = law.opens dsn lg s t db h in
      record {
        now_open = λ d. ground (arith, grown d, b.now_open d, mem-append d db opened);
        was_closed =
            λ d. ground (arith, fresh, b.now_open db, b.was_closed d, mem-append d db opened);
        handled = All-append _ opened (db ∷ []) b.handled ((sql, given), tt);
      }

  module _ (lg : ZapLogger) (s₀ s' : S) (e : Error) where
    -- What is open is what was open before; or one database is open beside it, which was opened and
    -- has no handle.
    abbrev pub Restored : Type 0
    Restored = (d : ℕ) → law.is_open s' d ≡ law.is_open s₀ d

    abbrev pub OneLeft : Type 0
    OneLeft =
        (db : ℕ) × (law.handle db ≡ none)
        × (law.is_open s₀ db ≡ false)
        × ((d : ℕ) → law.is_open s' d ≡ (law.is_open s₀ d || d == db))

    one_left :
        (c : DbShard) (opened : List ℕ) (x : Error) (db : ℕ) (s t : S)
        → Between s₀ s opened
        → driver.open_db c.dsn lg s ≡ (ok db, t)
        → law.handle db ≡ none
        → (close_all driver opened
              >>= (λ _. fail {A = Databases ℕ} (wrap "failed to get sql db [ %s ]: %w" x)))
            t
          ≡ (err e, s')
        → OneLeft
    one_left c opened x db s t b o n k =
        let (fresh, grown) = law.opens c.dsn lg s t db o in
        (
          db,
          n,
          ground (arith, fresh, b.now_open db),
          λ d. ground (
            arith,
            cleaned opened "failed to get sql db [ %s ]: %w" x e t s' b.handled k d,
            grown d,
            b.now_open d,
            b.was_closed d,
            fresh,
            b.now_open db,
          ),
        )

    by_handle :
        (o : Option Sql) (c : DbShard) (l : List DbShard) (opened : List ℕ) (dbs : Databases ℕ)
        (db : ℕ) (s t : S)
        → law.handle db ≡ o
        → ((sql : Sql)
            → law.handle db ≡ some sql
            → open_all driver lg l (opened ++ db ∷ []) (store_db c.name db dbs) t ≡ (err e, s')
            → Restored ⊎ OneLeft)
        → Between s₀ s opened
        → driver.open_db c.dsn lg s ≡ (ok db, t)
        → check
            (driver.sql_db db)
            (λ x.
              close_all driver opened >>= (λ _. fail (wrap "failed to get sql db [ %s ]: %w" x)))
            (λ sql. open_all driver lg l (opened ++ db ∷ []) (store_db c.name db dbs))
            t
          ≡ (err e, s')
        → Restored ⊎ OneLeft
    by_handle none c l opened dbs db s t g later b o k =
        let (x, failed) = law.gives_none db t g in
        inr (one_left c opened x db s t b o g (rw failed at k))
    by_handle (some sql) c l opened dbs db s t g later b o k =
        later sql g (rw (law.gives db sql t g) at k)

    restores :
        (l : List DbShard) (opened : List ℕ) (dbs : Databases ℕ) (s : S)
        → Between s₀ s opened
        → open_all driver lg l opened dbs s ≡ (err e, s')
        → Restored ⊎ OneLeft
    unfolding open_all
    restores [] opened dbs s b h = cc
    restores (c ∷ l) opened dbs s b h =
        by_open (driver.open_db c.dsn lg s).0 (driver.open_db c.dsn lg s).1 refl (restores l) h
      where
        by_open :
            (r : Outcome ℕ) (t : S)
            → driver.open_db c.dsn lg s ≡ (r, t)
            → ((opened' : List ℕ) (dbs' : Databases ℕ) (u : S)
                → Between s₀ u opened'
                → open_all driver lg l opened' dbs' u ≡ (err e, s')
                → Restored ⊎ OneLeft)
            → resume r
                (λ x.
                  close_all driver opened >>= (λ _. fail (wrap "failed to open db [ %s ]: %w" x)))
                (λ db.
                  check
                    (driver.sql_db db)
                    (λ x.
                      close_all driver opened
                      >>= (λ _. fail (wrap "failed to get sql db [ %s ]: %w" x)))
                    (λ sql. open_all driver lg l (opened ++ db ∷ []) (store_db c.name db dbs)))
                t
              ≡ (err e, s')
            → Restored ⊎ OneLeft
        by_open (ok db) t o later k =
            by_handle (law.handle db) c l opened dbs db s t refl
              (λ sql given.
                later (opened ++ db ∷ []) (store_db c.name db dbs) t
                  (one_more lg c.dsn db sql s₀ s t opened b o given))
              b o k
        by_open (err x) t o later k =
            let still = still-Between lg c.dsn x s₀ s t opened b o in
            inl (λ d. ground (
              arith,
              cleaned opened "failed to open db [ %s ]: %w" x e t s' still.handled k d,
              still.now_open d,
              still.was_closed d,
            ))
        by_open panic t o later k = cc
        by_open pending t o later k = cc

  -- With a driver that does what gorm and database/sql document: where opening the databases fails,
  -- exactly those databases are open that were open before; or one more is, which was opened and
  -- for which `DB()` is an error, since it is not among those that the cleanup closes.
  pub open_all-cleanup :
      (lg : ZapLogger) (l : List DbShard) (e : Error) (s s' : S)
      → open_all driver lg l [] [] s ≡ (err e, s')
      → Restored lg s s' e ⊎ OneLeft lg s s' e
  open_all-cleanup lg l e s s' h =
      restores lg s s' e l [] [] s
        (record { now_open = λ x. ground arith; was_closed = λ x. ground arith; handled = tt }) h
