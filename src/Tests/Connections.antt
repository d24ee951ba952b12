-- ===== src/Tests/Connections.antt =====
-- Opening databases that fails (internal/pkg/providers/db.go), over a driver in memory.
use hermet.Base.{
  ℕ, ◌+◌, ◌≡◌, refl, sym, ap, ◌∙◌, Bool, true, false, not, ◌&&◌, ◌||◌, ◌==◌, ltb, same, Option,
  none, some, if◌then◌else◌, ◌⊎◌, List, [], ◌∷◌, Error, wrap, errorf, Outcome, ok, err, arith,
}
use hermet.Log.{ZapLogger, new_zap_logger}
use hermet.Providers.Databases.{DbShard, Driver, open_all, close_all}
use hermet.Providers.Databases.Cleanup.{Connects, Restored, OneLeft, open_all-cleanup}

-- How many were opened, and which of them were closed.
abbrev Opened : Type 0
Opened = ℕ × (ℕ → Bool)

abbrev refused : Error
refused = errorf "no such host" []

abbrev opening : Bool → Opened → Outcome ℕ × Opened
opening true s = (err refused, s)
opening false (n, closed) = (ok n, (n + 1, λ d. not (d == n) && closed d))

-- The second database that is opened has no handle.
abbrev handle_of : ℕ → Option ℕ
handle_of db = if db == 1 then none else some db

abbrev or_invalid : Option ℕ → Outcome ℕ
or_invalid none = err (errorf "invalid db" [])
or_invalid (some sql) = ok sql

handle-eq : (b : Bool) (db sql : ℕ) → (if b then none else some db) ≡ some sql → db ≡ sql
handle-eq true db sql h = cc
handle-eq false db sql h = cc

abbrev driver : Driver Opened ℕ ℕ
driver = record {
  open_db = λ dsn lg s. opening (same dsn "") s;
  sql_db = λ db s. (or_invalid (handle_of db), s);
  close_sql = λ db s. (ok tt, (s.0, λ d. s.1 d || d == db));
}

abbrev is_open : Opened → ℕ → Bool
is_open (n, closed) d = ltb d n && not (closed d)

opening-ok :
    (b : Bool) (s s' : Opened) (db : ℕ)
    → opening b s ≡ (ok db, s')
    → (is_open s db ≡ false) × ((d : ℕ) → is_open s' d ≡ (is_open s d || d == db))
opening-ok true s s' db h = cc
opening-ok false (n, closed) s' db h =
    let e : n ≡ db = cc in
    let f : (n + 1, λ d. not (d == n) && closed d) ≡ s' = ap (λ p. p.1) h in
    (ground arith, λ d. ap (λ t. is_open t d) (sym f) ∙ ground arith)

opening-err :
    (b : Bool) (s s' : Opened) (e : Error)
    → opening b s ≡ (err e, s')
    → (d : ℕ) → is_open s' d ≡ is_open s d
opening-err true s s' e h d = ap (λ p. is_open p.1 d) (sym h)
opening-err false s s' e h d = cc

driver-Connects : Connects driver
driver-Connects = record {
  is_open = is_open;
  handle = handle_of;
  opens = λ dsn lg s t db h. opening-ok (same dsn "") s t db h;
  open_fails = λ dsn lg s t e h. opening-err (same dsn "") s t e h;
  gives = λ db sql s h. rw h refl;
  gives_none = λ db s h. (errorf "invalid db" [], rw h refl);
  closes = λ db sql s h.
      let same_db : db ≡ sql = handle-eq (db == 1) db sql h in
      ((s.0, λ d. s.1 d || d == sql), refl, λ d. rw same_db (ground arith));
}

abbrev two_shards : List DbShard
two_shards = record { name = "hermet_0"; dsn = "a" } ∷ record { name = "hermet_1"; dsn = "b" } ∷ []

abbrev none_opened : Opened
none_opened = (0, λ d. false)

abbrev logger : ZapLogger
logger = new_zap_logger none none none

abbrev after_failure : Opened
after_failure = (open_all driver logger two_shards [] [] none_opened).1

open_all-cleanup_example :
    Restored driver driver-Connects logger none_opened after_failure
      (wrap "failed to get sql db [ %s ]: %w" (errorf "invalid db" []))
    ⊎ OneLeft driver driver-Connects logger none_opened after_failure
        (wrap "failed to get sql db [ %s ]: %w" (errorf "invalid db" []))
unfolding open_all close_all
open_all-cleanup_example =
    open_all-cleanup driver driver-Connects logger two_shards
      (wrap "failed to get sql db [ %s ]: %w" (errorf "invalid db" [])) none_opened after_failure
      refl
