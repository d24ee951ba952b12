-- ===== src/Providers/OAuth/Cache.antt =====
-- kafka_oauth.go: how long a token is used again.
use hermet.Base.{
  ℕ, ◌+◌, ◌-◌, ◌*◌, ◌<◌, ◌≤◌, ◌≡◌, ◌≢◌, refl, sym, ap, ◌∙◌, String, true, false, ne-same, ltb, ok,
  Exec, return, >>=-eq-ok, arith,
}
use hermet.Providers.OAuth.{
  OauthMechanism, TokenRes, Http, lifetime, add_duration, is_fresh, store_token, fetch_token,
  get_access_token, in_world, request_token,
}

-- Sixty seconds before the token runs out.
lifetime_exact :
    (t e : ℕ) → 60 ≤ e → e ≤ 9000000000 → add_duration t (lifetime e) ≡ t + (e - 60) * 1000000000
unfolding add_duration lifetime
lifetime_exact t e lo hi = ground arith

ltb-true : (a b : ℕ) → a < b → ltb a b ≡ true
ltb-true a b h = ground arith

ltb-false : (a b : ℕ) → b ≤ a → ltb a b ≡ false
ltb-false a b h = ground arith

module _ {W Request Reply : Type 0} (http : Http W Request Reply) where
  -- What a request that gave a token left in the mechanism.
  pub record Fetched (m' : OauthMechanism) (token : String) : Type 0 where
    pub res : TokenRes
    pub t : ℕ
    pub before : W
    pub after : W
    pub clock : http.now before ≡ (ok t, after)
    pub given : token ≡ res.access_token
    pub cached : m'.access_token ≡ token
    pub expiry : m'.expires_at ≡ add_duration t (lifetime res.expires_in)

  pub fetch_token-Fetched :
      (s : OauthMechanism × W) (m' : OauthMechanism) (world' : W) (token : String)
      → fetch_token http s ≡ (ok token, (m', world'))
      → Fetched m' token
  unfolding fetch_token store_token
  fetch_token-Fetched s m' world' token h =
      let (res, (m₁, w₁), e₁, h₁) = >>=-eq-ok (request_token http) _ s h in
      let (t, (m₂, w₂), e₂, h₂) = >>=-eq-ok (in_world http http.now) _ (m₁, w₁) h₁ in
      record {
        res = res;
        t = t;
        before = w₁;
        after = w₂;
        clock = ap (λ p. (p.0, p.1.1)) e₂;
        given = cc;
        cached = cc;
        expiry = ap (λ p. p.1.0.expires_at) (sym h₂);
      }

  filled_by :
      (m' : OauthMechanism) (token : String) → Fetched m' token → token ≢ "" → m'.access_token ≢ ""
  filled_by m' token f ne k = ne (sym f.cached ∙ k)

  -- The first check, on a mechanism that has a token.
  is_fresh-read :
      (m : OauthMechanism) (t : ℕ) (world world' : W)
      → m.access_token ≢ ""
      → http.now world ≡ (ok t, world')
      → is_fresh http (m, world) ≡ (ok (ltb t m.expires_at), (m, world'))
  unfolding is_fresh
  is_fresh-read m t world world' ne e = rw (ne-same ne) (rw e refl)

  pub get_access_token-Fetched :
      (between : Exec (OauthMechanism × W) (Unit {0})) (m' : OauthMechanism) (token : String)
      (f : Fetched m' token) (v v' : W) (now : ℕ)
      → token ≢ ""
      → 60 ≤ f.res.expires_in
      → f.res.expires_in ≤ 9000000000
      → http.now v ≡ (ok now, v')
      → now < f.t + (f.res.expires_in - 60) * 1000000000
      → get_access_token http between (m', v) ≡ (ok token, (m', v'))
  unfolding get_access_token
  get_access_token-Fetched between m' token f v v' now ne lo hi c lt =
      let r = is_fresh-read m' now v v' (filled_by m' token f ne) c in
      let x = f.expiry ∙ lifetime_exact f.t f.res.expires_in lo hi in
      rw (r ∙ ap (λ b. (ok b, (m', v'))) (ltb-true now m'.expires_at (omega (arith, x, lt))))
        (rw f.cached refl)

  -- From sixty seconds before the end of the lifetime on the token is not used again: with no other
  -- goroutine between the two checks and a second clock reading no earlier than the first, the call
  -- is a request for a new token.
  pub get_access_token-expired :
      (m' : OauthMechanism) (token : String) (f : Fetched m' token) (v v' v'' : W) (now later : ℕ)
      → token ≢ ""
      → 60 ≤ f.res.expires_in
      → f.res.expires_in ≤ 9000000000
      → http.now v ≡ (ok now, v')
      → http.now v' ≡ (ok later, v'')
      → now ≤ later
      → f.t + (f.res.expires_in - 60) * 1000000000 ≤ now
      → get_access_token http (return tt) (m', v) ≡ fetch_token http (m', v'')
  unfolding get_access_token
  get_access_token-expired m' token f v v' v'' now later ne lo hi c c' le due =
      let filled = filled_by m' token f ne in
      let x = f.expiry ∙ lifetime_exact f.t f.res.expires_in lo hi in
      rw
        (is_fresh-read m' now v v' filled c
          ∙ ap (λ b. (ok b, (m', v'))) (ltb-false now m'.expires_at (omega (arith, x, due))))
        (rw
          (is_fresh-read m' later v' v'' filled c'
            ∙ ap (λ b. (ok b, (m', v'')))
                (ltb-false later m'.expires_at (omega (arith, x, due, le))))
          refl)
