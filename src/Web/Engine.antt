-- ===== src/Web/Engine.antt =====
-- The gin engine as the program uses it: `Use`, `Group(…).Handle(…)` and the serving of a request.
-- gin itself is a parameter with the laws that its documentation gives; the interfaces
-- HandlerFuncBuilder and RouteRegistry are those of internal/pkg/xgin/types.go.
pub mod Table
use Prim.Native.Char.{code}
use Prim.Native.String
use hermet.Base.{
  ℕ, ◌≡◌, String, Bool, true, false, not, ◌&&◌, ◌||◌, Option, none, some, List, [], ◌∷◌, ◌++◌, same,
  ◌==◌, if◌then◌else◌, Outcome, ok, Exec, return, ◌>>=◌,
}
use hermet.Web.{ContextValue, Response}

-- A request: what the program reads of it, and the rest, which gin binds.
pub record Http (B : Type 0) : Type 0 where
  pub method : String
  pub path : String
  pub access_token : String
  pub raw : B

-- `gin.HandlerFunc`: of a handler at the end of a chain, and of a middleware, which is given the
-- rest of the chain for `ctx.Next`.
abbrev pub Handler : Type 0 → Type 0 → Type 0 → Type 0
Handler B S P = Http B → Option ContextValue → Exec S (Response P)

abbrev pub Middleware : Type 0 → Type 0 → Type 0 → Type 0
Middleware B S P =
    Http B → Option ContextValue → (Option ContextValue → Exec S (Response P)) → Exec S (Response P)

abbrev pub chain : {B S P : Type 0} → List (Middleware B S P) → Handler B S P → Handler B S P
chain [] h = h
chain (m ∷ ms) h = λ http before. m http before (chain ms h http)

-- The arguments of one `Handle` on a group.
pub record Route (B S P : Type 0) : Type 0 where
  pub group : String
  pub method : String
  pub relative : String
  pub handler : Handler B S P

-- The path of a route: its group, which does not begin with a slash in this program, and the rest,
-- which does.
abbrev pub full_path : String → String → String
full_path group relative = String.◌++◌ "/" (String.◌++◌ group relative)

-- Paths that gin takes as they are: no empty segment, no dot, no parameter, no slash at the end.
unfoldable pub plain_from : Bool → String → Bool
plain_from after_slash String.[] = not after_slash
plain_from after_slash (String.◌∷◌ c s) =
    let slash = plain_from true s in
    let other = plain_from false s in
    if code c == 47
    then not after_slash && slash
    else not (code c == 46 || code c == 58 || code c == 42) && other

abbrev starts_with_slash : String → Bool
starts_with_slash String.[] = false
starts_with_slash (String.◌∷◌ c s) = code c == 47

abbrev pub is_clean : String → String → Bool
is_clean group relative = starts_with_slash relative && plain_from false (full_path group relative)

-- `gin.Engine`: `find` is the chain that serves a method and a path.
pub record Gin (B S P E : Type 0) : Type 0 where
  pub use_all : List (Middleware B S P) → Exec E (Unit {0})
  pub handle : Route B S P → Exec E (Unit {0})
  pub used : E → List (Middleware B S P)
  pub find : E → String → String → Option (Handler B S P)
  pub serve : E → Handler B S P

abbrev pub is_for : {B S P : Type 0} → Route B S P → String → String → Bool
is_for r method path = same r.method method && same (full_path r.group r.relative) path

-- What gin documents: `Use` adds middleware for the routes that are handled afterwards; `Handle`
-- gives a new route the chain of the middleware used so far and the handler, and leaves the others;
-- a request is served by the chain that is found for its method and its path.
pub record Documented {B S P E : Type 0} (gin : Gin B S P E) : Type 0 where
  pub use_ok :
      (ms : List (Middleware B S P)) (e : E)
      → (e' : E) × (gin.use_all ms e ≡ (ok tt, e'))
        × (gin.used e' ≡ gin.used e ++ ms)
        × ((m p : String) → gin.find e' m p ≡ gin.find e m p)
  pub handle_ok :
      (r : Route B S P) (e : E)
      → is_clean r.group r.relative ≡ true
      → gin.find e r.method (full_path r.group r.relative) ≡ none
      → (e' : E) × (gin.handle r e ≡ (ok tt, e'))
        × (gin.used e' ≡ gin.used e)
        × ((m p : String)
            → gin.find e' m p
              ≡ (if is_for r m p then some (chain (gin.used e) r.handler) else gin.find e m p))
  pub serves :
      (e : E) (http : Http B) (h : Handler B S P)
      → gin.find e http.method http.path ≡ some h
      → gin.serve e http ≡ h http

-- `RouteRegistry` and `HandlerFuncBuilder`
pub record RouteRegistry (E : Type 0) : Type 0 where
  pub register : Exec E (Unit {0})

pub record HandlerFuncBuilder (B S P : Type 0) : Type 0 where
  pub build : Middleware B S P

module _ {B S P E : Type 0} (gin : Gin B S P E) where
  -- Calls of `Handle` one after the other.
  unfoldable pub handle_all : List (Route B S P) → Exec E (Unit {0})
  handle_all [] = return tt
  handle_all (r ∷ rs) = gin.handle r >>= (λ _. handle_all rs)

module _ {E : Type 0} where
  unfoldable pub register_all : List (RouteRegistry E) → Exec E (Unit {0})
  register_all [] = return tt
  register_all (g ∷ gs) = g.register >>= (λ _. register_all gs)
