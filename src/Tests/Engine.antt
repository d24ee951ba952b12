-- ===== src/Tests/Engine.antt =====
-- A gin engine in memory, which does what gin documents: a list of middleware and a table of chains.
use hermet.Base.{
  refl, ap, String, Option, none, some, List, [], ◌∷◌, ◌++◌, ◌&&◌, same, if◌then◌else◌, ok, return,
}
use hermet.Web.{abort}
use hermet.Web.Engine.{Handler, Middleware, chain, full_path, Gin, Documented}

pub record Entry (B S P : Type 0) : Type 0 where
  pub method : String
  pub path : String
  pub handler : Handler B S P

pub record Table (B S P : Type 0) : Type 0 where
  pub used : List (Middleware B S P)
  pub entries : List (Entry B S P)

module _ {B S P : Type 0} where
  abbrev look_up : List (Entry B S P) → String → String → Option (Handler B S P)
  look_up [] m p = none
  look_up (e ∷ l) m p = if same e.method m && same e.path p then some e.handler else look_up l m p

  abbrev or_not_found : Option (Handler B S P) → Handler B S P
  or_not_found none = λ http before. return (abort 404)
  or_not_found (some h) = h

  abbrev pub in_memory : Gin B S P (Table B S P)
  in_memory = record {
    use_all = λ ms e. (ok tt, record e { used = e.used ++ ms });
    handle = λ r e. (
      ok tt,
      record e {
        entries =
            record {
              method = r.method;
              path = full_path r.group r.relative;
              handler = chain e.used r.handler;
            }
            ∷ e.entries;
      },
    );
    used = λ e. e.used;
    find = λ e m p. look_up e.entries m p;
    serve = λ e http. or_not_found (look_up e.entries http.method http.path) http;
  }

  pub in_memory-Documented : Documented in_memory
  in_memory-Documented = record {
    use_ok = λ ms e. (record e { used = e.used ++ ms }, refl, refl, λ m p. refl);
    handle_ok = λ r e clean free. (_, refl, refl, λ m p. refl);
    serves = λ e http h at. ap (λ o. or_not_found o http) at;
  }

  abbrev pub fresh_engine : Table B S P
  fresh_engine = record { used = []; entries = [] }
