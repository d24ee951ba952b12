-- ===== src/App/Wiring.antt =====
-- app.go: what the engine serves once `InitApp` has returned.
use mathlib.Core.List.{append-nil}
use hermet.Base.{
  ◌≡◌, refl, sym, ap, ◌∙◌, String, some, List, [], ◌∷◌, ◌++◌, map, Outcome, ok, err, panic, pending,
  Exec, resume, fail,
}
use hermet.Web.Engine.{
  Middleware, Route, Gin, Documented, RouteRegistry, HandlerFuncBuilder, handle_all, register_all,
}
use hermet.Web.Engine.Table.{entry, found, Fresh, Free, handle_all-Handled}
use hermet.Providers.Hooks.{Hook}
use hermet.App.{
  WebConfig, App, NetHttp, start, stop, new_server, Fx, on_engine, append_hook, load_web_config,
  use_builders, init_app,
}

abbrev pub flat : {A : Type 0} → List (List A) → List A
flat [] = []
flat (xs ∷ l) = xs ++ flat l

module _ {B S P E : Type 0} (gin : Gin B S P E) (doc : Documented gin) where
  -- A registry that handles a list of routes.
  abbrev pub registry : List (Route B S P) → RouteRegistry E
  registry rs = record { register = handle_all gin rs }

  after_first :
      (o : Outcome (Unit {0})) (k : Exec E (Unit {0})) (l : Exec E (Unit {0})) (e : E)
      → resume (resume o fail (λ _. k) e).0 fail (λ _. l) (resume o fail (λ _. k) e).1
        ≡ resume o fail (λ _ e₁. resume (k e₁).0 fail (λ _. l) (k e₁).1) e
  after_first (ok t) k l e = refl
  after_first (err x) k l e = refl
  after_first panic k l e = refl
  after_first pending k l e = refl

  resume_same :
      (o : Outcome (Unit {0})) (k l : Exec E (Unit {0})) (e : E)
      → ((e₁ : E) → k e₁ ≡ l e₁)
      → resume o fail (λ _. k) e ≡ resume o fail (λ _. l) e
  resume_same (ok t) k l e h = h e
  resume_same (err x) k l e h = refl
  resume_same panic k l e h = refl
  resume_same pending k l e h = refl

  handle_all-append :
      (rs rs' : List (Route B S P)) (e : E)
      → handle_all gin (rs ++ rs') e
        ≡ resume (handle_all gin rs e).0 fail (λ _. handle_all gin rs') (handle_all gin rs e).1
  unfolding handle_all
  handle_all-append [] rs' e = refl
  handle_all-append (r ∷ rs) rs' e =
      resume_same (gin.handle r e).0 _ _ (gin.handle r e).1 (handle_all-append rs rs')
      ∙ sym (
          after_first (gin.handle r e).0 (handle_all gin rs) (handle_all gin rs')
            (gin.handle r e).1)

  register_all-flat :
      (groups : List (List (Route B S P))) (e : E)
      → register_all (map registry groups) e ≡ handle_all gin (flat groups) e
  unfolding register_all handle_all
  register_all-flat [] e = refl
  register_all-flat (rs ∷ groups) e =
      resume_same (handle_all gin rs e).0 _ _ (handle_all gin rs e).1 (register_all-flat groups)
      ∙ sym (handle_all-append rs (flat groups) e)

  abbrev pub middlewares : List (HandlerFuncBuilder B S P) → List (Middleware B S P)
  middlewares builders = map (λ c. c.build) builders

  -- What `use_builders` leaves.
  use_builders-used :
      (builders : List (HandlerFuncBuilder B S P)) (e : E)
      → (e' : E) × (use_builders gin builders e ≡ (ok tt, e'))
        × (gin.used e' ≡ gin.used e ++ middlewares builders)
        × ((m p : String) → gin.find e' m p ≡ gin.find e m p)
  unfolding use_builders
  use_builders-used [] e = (e, refl, sym (append-nil (gin.used e)), λ m p. refl)
  use_builders-used (b ∷ bs) e = doc.use_ok (middlewares (b ∷ bs)) e

  module _ (http : NetHttp S) (go : Exec S (Unit {0}) → Exec S (Unit {0})) where
    abbrev pub app_for : WebConfig → App
    app_for cfg = record { svr = new_server cfg }

    abbrev pub hook_for : WebConfig → Hook S
    hook_for cfg = record {
      on_start = some (start http go (app_for cfg));
      on_stop = some (stop http (app_for cfg));
    }

    -- What `InitApp` made: the application, one more hook, and the engine's routes.
    pub record Wired (cfg : WebConfig) (builders : List (HandlerFuncBuilder B S P))
        (groups : List (List (Route B S P))) (fx : Fx E S) : Type 0 where
      pub engine : E
      pub made :
          init_app gin http go (ok cfg) builders (map registry groups) fx
          ≡ (ok (app_for cfg), record { engine = engine; hooks = fx.hooks ++ hook_for cfg ∷ [] })
      pub finds :
          (m p : String)
          → gin.find engine m p
            ≡ found
                (gin.used fx.engine ++ middlewares builders)
                (entry (flat groups) m p)
                (gin.find fx.engine m p)

    -- Over a gin as documented, with a configuration of the server and registries whose routes are
    -- clean paths, none of them twice and none of them there yet: `InitApp` returns the application
    -- and puts one hook behind the others, and the engine then serves each route behind the
    -- middleware of the engine and of all builders, in order, and any other path as before.
    pub init_app-Wired :
        (cfg : WebConfig) (builders : List (HandlerFuncBuilder B S P))
        (groups : List (List (Route B S P))) (fx : Fx E S)
        → Fresh (flat groups)
        → Free gin doc fx.engine (flat groups)
        → Wired cfg builders groups fx
    unfolding init_app load_web_config on_engine append_hook new_server
    init_app-Wired cfg builders groups fx fresh free =
        let (e₁, done, used, same) = use_builders-used builders fx.engine in
        let (e₂, handled, used', finds) =
          handle_all-Handled gin doc (flat groups) e₁ fresh
            (λ m p r at. same m p ∙ free m p r at) in
        record {
          engine = e₂;
          made = rw done (rw (register_all-flat groups e₁ ∙ handled) refl);
          finds = λ m p.
              finds m p
              ∙ ap (λ u. found u (entry (flat groups) m p) (gin.find e₁ m p)) used
              ∙ ap (found (gin.used fx.engine ++ middlewares builders) (entry (flat groups) m p))
                  (same m p);
        }
