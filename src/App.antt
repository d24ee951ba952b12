-- ===== src/App.antt =====
-- internal/app/app.go: the application is a gin engine with the middleware and the routes that the
-- other parts provide, and an HTTP server that the life cycle starts and stops.
pub mod Config
pub mod Wiring
pub mod Guarded
pub mod Applications
pub mod Libraries
pub mod Assembly
use hermet.Base.{
  ℕ, String, Bool, true, false, Option, none, some, List, [], ◌∷◌, ◌++◌, map, if◌then◌else◌, Error,
  is, server_closed, Outcome, ok, err, panic, pending, Exec, check, return, fail, ◌>>=◌,
}
use hermet.Providers.Hooks.{Hook}
use hermet.Web.Engine.{Middleware, Gin, RouteRegistry, HandlerFuncBuilder, register_all}

-- `webConfig`; a duration is in nanoseconds.
pub record WebConfig : Type 0 where
  pub addr : String
  pub read_header_timeout : ℕ
  pub read_timeout : ℕ
  pub write_timeout : ℕ
  pub idle_timeout : ℕ

-- `http.Server` as it is filled here. Its handler is the engine itself, not a copy.
pub record Server : Type 0 where
  pub addr : String
  pub read_header_timeout : ℕ
  pub read_timeout : ℕ
  pub write_timeout : ℕ
  pub idle_timeout : ℕ

pub record App : Type 0 where
  pub svr : Server

-- What the goroutine of `Start` does once `ListenAndServe` has returned: a fatal log ends the
-- program.
pub data Watch : Type 0 where
  quiet : Watch
  fatal : Error → Watch

unfoldable pub after_listen : Option Error → Watch
after_listen none = quiet
after_listen (some e) = if is e server_closed then quiet else fatal e

-- `net/http`: serving and shutting down.
pub record NetHttp (S : Type 0) : Type 0 where
  pub listen_and_serve : Server → Exec S (Unit {0})
  pub shutdown : Server → Exec S (Unit {0})

module _ {S : Type 0} (http : NetHttp S) where
  -- `Start`: the server runs in a goroutine, which `go` starts.
  unfoldable pub start : (Exec S (Unit {0}) → Exec S (Unit {0})) → App → Exec S (Unit {0})
  start go app = go (http.listen_and_serve app.svr) >>= (λ _. return tt)

  unfoldable pub stop : App → Exec S (Unit {0})
  stop app = check (http.shutdown app.svr) fail (λ _. return tt)

unfoldable pub new_server : WebConfig → Server
new_server cfg = record {
  addr = cfg.addr;
  read_header_timeout = cfg.read_header_timeout;
  read_timeout = cfg.read_timeout;
  write_timeout = cfg.write_timeout;
  idle_timeout = cfg.idle_timeout;
}

-- The engine and the hooks of the life cycle, which `InitApp` changes.
pub record Fx (E S : Type 0) : Type 0 where
  pub engine : E
  pub hooks : List (Hook S)

module _ {E S : Type 0} where
  abbrev put_engine : {A : Type 0} → Outcome A × E → Fx E S → Outcome A × Fx E S
  put_engine (r, e) fx = (r, record fx { engine = e })

  unfoldable pub on_engine : {A : Type 0} → Exec E A → Exec (Fx E S) A
  on_engine m fx = put_engine (m fx.engine) fx

  unfoldable pub append_hook : Hook S → Exec (Fx E S) (Unit {0})
  append_hook hook fx = (ok tt, record fx { hooks = fx.hooks ++ hook ∷ [] })

  -- `loadWebConfig` panics where the configuration does not fit.
  unfoldable pub load_web_config : Outcome WebConfig → Exec (Fx E S) WebConfig
  load_web_config (ok cfg) fx = (ok cfg, fx)
  load_web_config (err e) fx = (panic, fx)
  load_web_config panic fx = (panic, fx)
  load_web_config pending fx = (pending, fx)

  module _ {B P : Type 0} (gin : Gin B S P E) where
    -- `if len(params.Builders) > 0`
    unfoldable pub use_builders : List (HandlerFuncBuilder B S P) → Exec E (Unit {0})
    use_builders [] = return tt
    use_builders (b ∷ bs) = gin.use_all (map (λ c. c.build) (b ∷ bs))

  module _ {B P : Type 0} (gin : Gin B S P E) (http : NetHttp S)
      (go : Exec S (Unit {0}) → Exec S (Unit {0})) where
    -- `InitApp`, over what viper reads for "hermet.web"
    unfoldable pub init_app :
        Outcome WebConfig
        → List (HandlerFuncBuilder B S P)
        → List (RouteRegistry E)
        → Exec (Fx E S) App
    unfolding new_server
    init_app web builders registries = do
      cfg ← load_web_config web
      used ← on_engine (use_builders gin builders)
      registered ← on_engine (register_all registries)
      let app : App = record { svr = new_server cfg }
      hooked ←
          append_hook
            (record { on_start = some (start http go app); on_stop = some (stop http app) })
      return app
