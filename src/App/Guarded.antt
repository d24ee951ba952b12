-- ===== src/App/Guarded.antt =====
-- app.go with middleware/jwt.go: what a request must hold to get to a handler, whatever stands
-- beside the token's middleware in the chain.
use hermet.Base.{
  ℕ, ◌≡◌, ◌≢◌, ◌⊎◌, inl, inr, refl, sym, ◌∙◌, false, Option, none, some, List, [], ◌∷◌, ◌++◌, ok,
  Exec, All,
}
use hermet.Web.{ContextValue, user, Response, abort}
use hermet.Web.Engine.{Http, Handler, Middleware, chain, Route, Gin, Documented}
use hermet.Web.Jwt.{JwtPayload, JwtBuilder, trim_prefix, is_ignored, build}
use hermet.Web.Jwt.Passes.{user_in, Treated, ignored, no_token, bad_token, let_in, build-Treated}

module _ {B S P : Type 0} where
  -- A middleware that keeps to itself: where a request is answered, the answer is an abort or that
  -- of the rest of the chain, on the same context and the same state.
  abbrev pub KeepsToItself : Middleware B S P → Type 0
  KeepsToItself mw =
      (http : Http B) (before : Option ContextValue)
      (next : Option ContextValue → Exec S (Response P)) (s s' : S) (r : Response P)
      → mw http before next s ≡ (ok r, s')
      → ((c : ℕ) × (r ≡ abort c)) ⊎ (next before s ≡ (ok r, s'))

  abbrev pub jwt_middleware : JwtBuilder S → Middleware B S P
  jwt_middleware b http before next = build b http.path http.access_token before next

  chain-KeepsToItself :
      (ms : List (Middleware B S P)) (h : Handler B S P) (http : Http B)
      (before : Option ContextValue) (s s' : S) (r : Response P)
      → All KeepsToItself ms
      → ((c : ℕ) → r ≢ abort c)
      → chain ms h http before s ≡ (ok r, s')
      → h http before s ≡ (ok r, s')
  chain-KeepsToItself [] h http before s s' r a ne e = e
  chain-KeepsToItself (m ∷ ms) h http before s s' r a ne e =
      elim (a.0 http before (chain ms h http) s s' r e) [
        | inl (c, k) ↦ absurd (ne c k)
        | inr k ↦ chain-KeepsToItself ms h http before s s' r a.1 ne k
      ]

  chain-append :
      (ms ns : List (Middleware B S P)) (h : Handler B S P)
      → chain (ms ++ ns) h ≡ chain ms (chain ns h)
  chain-append [] ns h = refl
  chain-append (m ∷ ms) ns h = λ i http before. m http before (chain-append ms ns h i http)

  -- A request that was let in to a handler, with the user of its token.
  pub record LetIn (b : JwtBuilder S) (h : Handler B S P) (http : Http B) (s s' : S)
      (r : Response P) : Type 0 where
    pub payload : JwtPayload
    pub s₁ : S
    pub has_token : trim_prefix http.access_token "Bearer " ≢ ""
    pub decrypted :
        b.at_manager.decrypt (trim_prefix http.access_token "Bearer ") s ≡ (ok payload, s₁)
    pub handled : h http (some (user (user_in payload))) s₁ ≡ (ok r, s')

  jwt-LetIn :
      (b : JwtBuilder S) (post : List (Middleware B S P)) (h : Handler B S P) (http : Http B)
      (before : Option ContextValue) (s s' : S) (r : Response P)
      → All KeepsToItself post
      → is_ignored b.ignores http.path ≡ false
      → ((c : ℕ) → r ≢ abort c)
      → Treated b http.path http.access_token before (chain post h http) s s' r
      → LetIn b h http s s' r
  jwt-LetIn b post h http before s s' r a i ne (ignored j e) = cc
  jwt-LetIn b post h http before s s' r a i ne (no_token j z e k) = absurd (ne _ e)
  jwt-LetIn b post h http before s s' r a i ne (bad_token x j z k e) = absurd (ne _ e)
  jwt-LetIn b post h http before s s' r a i ne (let_in p s₁ j t d e) = record {
    payload = p;
    s₁ = s₁;
    has_token = t;
    decrypted = d;
    handled = chain-KeepsToItself post h http _ s₁ s' r a ne e;
  }

  module _ {E : Type 0} (gin : Gin B S P E) (doc : Documented gin) where
    -- In an engine that serves a route behind a chain that holds the token's middleware, among
    -- others that keep to themselves: a request to the route, on a path that is not ignored, whose
    -- answer is not an abort, had a token that was decrypted, and the handler ran with exactly the
    -- user of this token.
    pub serve-LetIn :
        (b : JwtBuilder S) (pre post : List (Middleware B S P)) (route : Route B S P) (e : E)
        (http : Http B) (s s' : S) (r : Response P)
        → All KeepsToItself pre
        → All KeepsToItself post
        → gin.find e http.method http.path
          ≡ some (chain (pre ++ jwt_middleware b ∷ post) route.handler)
        → is_ignored b.ignores http.path ≡ false
        → ((c : ℕ) → r ≢ abort c)
        → gin.serve e http none s ≡ (ok r, s')
        → LetIn b route.handler http s s' r
    serve-LetIn b pre post route e http s s' r before after at i ne h =
        jwt-LetIn b post route.handler http none s s' r after i ne (
          build-Treated b http.path http.access_token none (chain post route.handler http) s s' r (
            chain-KeepsToItself pre (chain (jwt_middleware b ∷ post) route.handler) http none s s' r
              before ne
              (sym (λ i. chain-append pre (jwt_middleware b ∷ post) route.handler i http none s)
                ∙ sym (λ i. doc.serves e http _ at i none s)
                ∙ h)))
