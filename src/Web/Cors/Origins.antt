-- ===== src/Web/Cors/Origins.antt =====
-- cors.go as newCorsBuilder configures it: which origins a browser may use the program from.
use hermet.Base.{
  ℕ, ◌≡◌, ◌≢◌, ◌↔◌, inl, inr, refl, String, Bool, true, false, List, [], ◌∷◌, same, same-ne,
  ne-same, same_iff, same_refl, Bool-cases, Outcome, ok, err, panic, pending, arith, subst,
}
use hermet.Web.Cors.{
  CorsBuilder, Hostname, contains, listed_host, allow_origin, allow_credentials, allow_methods,
  allow_headers, max_age, allow_origin_func, configured_cors_builder, build_cors,
}

-- A name of the list.
pub data Listed (name : String) : List String → Type 0 where
  here : (l : List String) → Listed name (name ∷ l)
  there : (other : String) {l : List String} → Listed name l → Listed name (other ∷ l)

contains-Listed : (l : List String) (name : String) → contains l name ≡ true → Listed name l
unfolding contains
contains-Listed [] name h = cc
contains-Listed (t ∷ l) name h = elim (Bool-cases (same t name)) [
  | inl e ↦ subst (λ x. Listed x (t ∷ l)) ((same_iff t name).0 e) (here l)
  | inr e ↦ there t (contains-Listed l name (rw e at h))
]

Listed-contains : (l : List String) (name : String) → Listed name l → contains l name ≡ true
unfolding contains
Listed-contains [] name m = elim m [ ]
Listed-contains (t ∷ l) name (here k) = rw (same_refl t) refl
Listed-contains (t ∷ l) name (there u m) = rw (Listed-contains l name m) (ground arith)

-- The origin is not empty, parses, and has a host name of the list.
abbrev pub Allowed : Hostname → List String → String → Type 0
Allowed hostname hostnames origin =
    (origin ≢ "") × (host : String) × (hostname origin ≡ ok host) × Listed host hostnames

host_cases :
    (hostnames : List String) (o : Outcome String)
    → listed_host hostnames o ≡ true
    → (host : String) × (o ≡ ok host) × Listed host hostnames
host_cases hostnames (ok host) h = (host, refl, contains-Listed hostnames host h)
host_cases hostnames (err e) h = cc
host_cases hostnames panic h = cc
host_cases hostnames pending h = cc

module _ (hostname : Hostname) (hostnames : List String) (origin : String) where
  allow_origin-Allowed :
      (b : Bool)
      → same origin "" ≡ b
      → allow_origin hostname hostnames origin ≡ true
      → Allowed hostname hostnames origin
  unfolding allow_origin
  allow_origin-Allowed true e h = let k = rw e at h in cc
  allow_origin-Allowed false e h =
      let (host, o, m) = host_cases hostnames (hostname origin) (rw e at h) in
      (same-ne e, host, o, m)

  Allowed-allow_origin :
      Allowed hostname hostnames origin → allow_origin hostname hostnames origin ≡ true
  unfolding allow_origin
  Allowed-allow_origin (ne, host, e, m) = rw (ne-same ne, e) (Listed-contains hostnames host m)

abbrev pub Treats : Hostname → List String → CorsBuilder → Type 0
Treats hostname hostnames b =
    (build_cors (λ c. c.allow_credentials) b ≡ true)
    × ((origin : String)
        → (build_cors (λ c. c.allow_origin_func origin) b ≡ true)
          ↔ Allowed hostname hostnames origin)

same_builder : (b c : CorsBuilder) → ◌≡◌ {A = Outcome CorsBuilder} (ok b) (ok c) → b ≡ c
same_builder b c h = cc

-- The builder that the provider makes allows credentials, and hands gin-contrib/cors a test that
-- lets an origin in exactly where it is not empty, parses as a URL, and its host name is one of the
-- configured ones.
pub configured_cors_builder-Treats :
    (hostname : Hostname) (read : Outcome (ℕ × List String)) (b : CorsBuilder)
    → configured_cors_builder hostname read ≡ ok b
    → (age : ℕ) × (hostnames : List String) × (read ≡ ok (age, hostnames))
      × Treats hostname hostnames b
unfolding configured_cors_builder build_cors allow_credentials allow_methods allow_headers max_age
    allow_origin_func
configured_cors_builder-Treats hostname (ok (age, hostnames)) b h = (
  age,
  hostnames,
  refl,
  subst (Treats hostname hostnames) (same_builder _ b h) (
    refl,
    λ origin. (
      λ t. allow_origin-Allowed hostname hostnames origin _ refl t,
      λ t. Allowed-allow_origin hostname hostnames origin t,
    ),
  ),
)
configured_cors_builder-Treats hostname (err e) b h = cc
configured_cors_builder-Treats hostname panic b h = cc
configured_cors_builder-Treats hostname pending b h = cc
