-- ===== src/Web/Cors.antt =====
-- internal/pkg/xgin/middleware/cors.go and internal/pkg/providers/middleware.go: the origins, the
-- methods and the headers that a browser may use, and the paths that need no token.
pub mod Origins
use hermet.Base.{
  ℕ, ◌*◌, String, Bool, true, false, Option, none, some, ◌||◌, List, [], ◌∷◌, same, if◌then◌else◌,
  Outcome, ok, err, panic, pending, then_do,
}
use hermet.Web.Jwt.{strip}

pub record CorsBuilder : Type 0 where
  pub allow_credentials : Bool
  pub allow_methods : List String
  pub allow_headers : List String
  pub expose_headers : List String
  pub max_age : ℕ
  pub allow_origin_func : String → Bool

abbrev has_rest : Option String → Bool
has_rest none = false
has_rest (some t) = true

unfoldable pub is_prefix : String → String → Bool
unfolding strip
is_prefix p s = has_rest (strip p s)

-- `slices.Contains`, and membership in the set of the ignored paths
unfoldable pub contains : List String → String → Bool
contains [] s = false
contains (t ∷ l) s = same t s || contains l s

-- `NewCorsBuilder`; the age is in nanoseconds.
unfoldable pub new_cors_builder : CorsBuilder
unfolding is_prefix
new_cors_builder = record {
  allow_credentials = false;
  allow_methods =
      "GET" ∷ "HEAD" ∷ "POST" ∷ "PUT" ∷ "PATCH" ∷ "DELETE" ∷ "CONNECT" ∷ "OPTIONS" ∷ "TRACE" ∷ [];
  allow_headers = "Content-Length" ∷ "Content-Type" ∷ "Authorization" ∷ "Accept" ∷ "Origin" ∷ [];
  expose_headers = "Origin" ∷ "Content-Length" ∷ "Content-Type" ∷ [];
  max_age = 12 * 3600000000000;
  allow_origin_func = is_prefix "http://localhost";
}

-- `url.Parse(origin)` and `Hostname()`, which are net/url's.
abbrev pub Hostname : Type 0
Hostname = String → Outcome String

abbrev pub listed_host : List String → Outcome String → Bool
listed_host hostnames (ok host) = contains hostnames host
listed_host hostnames (err e) = false
listed_host hostnames panic = false
listed_host hostnames pending = false

unfoldable pub allow_origin : Hostname → List String → String → Bool
unfolding contains
allow_origin hostname hostnames origin =
    if same origin "" then false else listed_host hostnames (hostname origin)

-- The setters, each of which changes one field and returns the builder.
unfoldable pub allow_credentials : Bool → CorsBuilder → CorsBuilder
allow_credentials allowed b = record b { allow_credentials = allowed }

unfoldable pub allow_methods : List String → CorsBuilder → CorsBuilder
allow_methods methods b = record b { allow_methods = methods }

unfoldable pub allow_headers : List String → CorsBuilder → CorsBuilder
allow_headers headers b = record b { allow_headers = headers }

unfoldable pub expose_headers : List String → CorsBuilder → CorsBuilder
expose_headers headers b = record b { expose_headers = headers }

unfoldable pub max_age : ℕ → CorsBuilder → CorsBuilder
max_age age b = record b { max_age = age }

unfoldable pub allow_origin_func : (String → Bool) → CorsBuilder → CorsBuilder
allow_origin_func f b = record b { allow_origin_func = f }

-- `cors.Config`, and `Build`, which hands it to gin-contrib/cors.
pub record Config : Type 0 where
  pub allow_credentials : Bool
  pub allow_methods : List String
  pub allow_headers : List String
  pub expose_headers : List String
  pub max_age : ℕ
  pub allow_origin_func : String → Bool

unfoldable pub build_cors : {Handler : Type 0} → (Config → Handler) → CorsBuilder → Handler
build_cors new b = new (record {
  allow_credentials = b.allow_credentials;
  allow_methods = b.allow_methods;
  allow_headers = b.allow_headers;
  expose_headers = b.expose_headers;
  max_age = b.max_age;
  allow_origin_func = b.allow_origin_func;
})

-- `newCorsBuilder`: what viper reads under "hermet.cors" is the age and the host names.
unfoldable pub configured_cors_builder : Hostname → Outcome (ℕ × List String) → Outcome CorsBuilder
configured_cors_builder hostname read = then_do read (λ cfg.
    let b₁ = allow_credentials true new_cors_builder in
    let b₂ = allow_methods ("GET" ∷ "POST" ∷ "PUT" ∷ "DELETE" ∷ "OPTIONS" ∷ []) b₁ in
    let b₃ =
      allow_headers
        ("Content-Length" ∷ "Content-Type" ∷ "Authorization" ∷ "Accept" ∷ "Origin"
          ∷ "x-access-token" ∷ [])
        b₂ in
    let b₄ = max_age cfg.0 b₃ in ok (allow_origin_func (allow_origin hostname cfg.1) b₄))
