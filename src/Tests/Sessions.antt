-- ===== src/Tests/Sessions.antt =====
-- Sign-in, sessions and tokens (internal/service, internal/api, internal/pkg/xgin) over a Redis in
-- memory.
use hermet.Base.{
  ◌<◌, ◌+◌, ltb, ℕ, ◌≡◌, ◌≢◌, refl, sym, ap, ◌∙◌, String, Bool, ◌==◌, ◌&&◌, same_iff, true, false,
  same, same_refl, ne-same, if◌then◌else◌, Option, none, some, [], both, errorf, sentinel,
  unauthorized, redis_nil, pos, Outcome, ok, err, Exec, return, fail, arith, subst,
}
use hermet.Domain
use hermet.Domain.{zero_biz_user}
use hermet.Repo.Repos.{BizUserRepo}
use hermet.Web.{
  R, ContextUser, ContextValue, user, Context, Response, json, abort, b, bu, write_res,
  extract_auth_user, status_unauthorized,
}
use hermet.Web.Answers.{Answered, bu-Answered}
use hermet.Web.Jwt.{JwtPayload, Manager, JwtBuilder, trim_prefix, strip, build}
use hermet.Web.Jwt.Passes.{Treated, build-Treated}
use hermet.Web.Session.{
  Redis, RedisSessionHandler, session_key, create_session, clear_session, as_handler,
}
use hermet.Web.Session.Life.{Reliable}
use hermet.Service
use hermet.Service.Auth.{
  DefaultAuthService, AuthService, sign_in_by_email, generate_token, verify_refresh_token,
}
use hermet.Service.Auth.SignIn.{
  Expires, SignedIn, sign_in-SignedIn, verify_refresh_token-generate_token,
}
use hermet.Api
use hermet.Api.Auth.{RefreshTokenRequest, SignInReq, TokenResp, AuthHandler, refresh_token}
use hermet.Api.Auth.SignedOut.{Session, refresh_token-clear_session, sign_in-Session, handler}

-- Which user each key holds.
abbrev Keys : Type 0
Keys = String → Option ℕ

abbrev write : String → Option ℕ → Keys → Keys
write k v s j = if same j k then v else s j

abbrev got : Option ℕ → Keys → Outcome ℕ × Keys
got none s = (err (sentinel redis_nil), s)
got (some v) s = (ok v, s)

abbrev in_memory : Redis Keys
in_memory = record {
  set_key = λ k v d s. (ok tt, write k (some v) s);
  get_key = λ k s. got (s k) s;
  expire_key = λ k d s. (ok tt, s);
  del_key = λ k s. (ok tt, write k none s);
}

here : (k : String) (v : Option ℕ) (s : Keys) → write k v s k ≡ v
here k v s = rw (same_refl k) refl

elsewhere : (k j : String) (v : Option ℕ) (s : Keys) → j ≢ k → write k v s j ≡ s j
elsewhere k j v s ne = rw (ne-same ne) refl

in_memory-Reliable : Reliable in_memory
in_memory-Reliable = record {
  value = λ s. s;
  set_sets = λ k v d s s2 h. (
    ap (λ p. p.1 k) (sym h) ∙ here k (some v) s,
    λ j ne. ap (λ p. p.1 j) (sym h) ∙ elsewhere k j (some v) s ne,
  );
  del_clears = λ k s s2 h. (
    ap (λ p. p.1 k) (sym h) ∙ here k none s,
    λ j ne. ap (λ p. p.1 j) (sym h) ∙ elsewhere k j none s ne,
  );
  get_gets = λ k v s h. ap (λ o. got o s) h;
  get_misses = λ k s h. ap (λ o. got o s) h;
}

abbrev sessions : RedisSessionHandler Keys
sessions = record { rdb = in_memory; expiration = pos 3600 }

abbrev no_keys : Keys
no_keys k = none

abbrev signed_in : Keys
signed_in = (create_session sessions "s1" 3 no_keys).1

abbrev signed_out : Keys
signed_out = (clear_session sessions "s1" signed_in).1

abbrev ann : ContextUser
ann = record { bid = 0; uid = 3; sid = "s1" }

abbrev ann_payload : JwtPayload
ann_payload = record { biz_id = 0; user_id = 3; session_id = "s1" }

abbrev is_ann : JwtPayload → Bool
is_ann p = p.biz_id == 0 && p.user_id == 3 && same p.session_id "s1"

-- A manager with one token, for one payload.
abbrev one_token : Manager Keys
one_token = record {
  encrypt = λ p. if is_ann p then return "t" else fail (errorf "no token" []);
  decrypt = λ t. if same t "t" then return ann_payload else fail (errorf "bad token" []);
}

abbrev ann_user : Domain.BizUser
ann_user = record zero_biz_user { id = 3; email = "ann@hermet.io"; passwd = "hash" }

abbrev knows_ann : BizUserRepo Keys
knows_ann = record {
  save = λ u. return u;
  find_by_id = λ id. return ann_user;
  find_by_email = λ email. return ann_user;
}

abbrev auth : DefaultAuthService Keys
auth = record {
  repo = knows_ann;
  at_manager = one_token;
  rt_manager = one_token;
  bcrypt = record {
    generate = λ s. return "hash";
    compare = λ hash s. if same s "secret" then return tt else fail (errorf "mismatch" []);
  };
  new_uuid = return "s1";
}

sign_in-SignedIn_example : SignedIn auth "ann@hermet.io" "email" "secret" no_keys no_keys ann
unfolding Service.Auth.sign_in sign_in_by_email
sign_in-SignedIn_example =
    sign_in-SignedIn auth "ann@hermet.io" "email" "secret" no_keys no_keys ann refl

abbrev service : AuthService Keys
service = Service.Auth.default_auth_service auth

abbrev refresh : RefreshTokenRequest
refresh = record { refresh_token = "t" }

abbrev refresh_context : Context RefreshTokenRequest
refresh_context = record { auth_user = none; bound = some refresh }

refresh_token-clear_session_example :
    (refresh_token (handler sessions service) refresh signed_out
      ≡ (err (both (sentinel unauthorized) (errorf "been signed out" [])), signed_out))
    × (b (refresh_token (handler sessions service)) refresh_context signed_out
        ≡ (ok (abort status_unauthorized), signed_out))
unfolding create_session clear_session Service.Auth.default_auth_service verify_refresh_token
refresh_token-clear_session_example =
    refresh_token-clear_session sessions in_memory-Reliable service ann refresh refresh_context
      signed_in signed_out refl refl refl

abbrev sign_in_request : SignInReq
sign_in_request = record {
  account = "ann@hermet.io";
  account_type = "email";
  credential = "secret";
}

abbrev tokens : R TokenResp
tokens = record {
  code = 200;
  msg = "";
  payload = some (record { access_token = "t"; refresh_token = "t" });
}

sign_in-Session_example :
    Session (handler sessions service) sign_in_request no_keys signed_in tokens
unfolding create_session session_key Api.Auth.sign_in Service.Auth.default_auth_service
    Service.Auth.sign_in sign_in_by_email generate_token as_handler
sign_in-Session_example =
    sign_in-Session (handler sessions service) sign_in_request no_keys signed_in tokens refl

abbrev jwt : JwtBuilder Keys
jwt = record { handler = as_handler sessions; at_manager = one_token; ignores = none }

abbrev greet : Option ContextValue → Exec Keys (Response ℕ)
greet v = return (json 200 (record { code = 200; msg = ""; payload = some 3 }))

build-Treated_example :
    Treated jwt "/contact" "Bearer t" none greet no_keys no_keys
      (json 200 (record { code = 200; msg = ""; payload = some 3 }))
unfolding build trim_prefix strip
build-Treated_example =
    build-Treated jwt "/contact" "Bearer t" none greet no_keys no_keys
      (json 200 (record { code = 200; msg = ""; payload = some 3 })) refl

abbrev answers : ℕ → ContextUser → Exec Keys (R ℕ)
answers n au = fail (sentinel unauthorized)

abbrev bound_context : Context ℕ
bound_context = record { auth_user = some (user ann); bound = some 1 }

bu-Answered_example : Answered answers bound_context no_keys no_keys (abort 401)
unfolding bu write_res extract_auth_user
bu-Answered_example = bu-Answered answers bound_context no_keys no_keys (abort 401) refl

is_ann-eq : (p : JwtPayload) → is_ann p ≡ true → ann_payload ≡ p
is_ann-eq p h = by_parts (p.biz_id == 0) (p.user_id == 3) (same p.session_id "s1") refl refl refl h
  where
    by_parts :
        (x y z : Bool)
        → (p.biz_id == 0) ≡ x
        → (p.user_id == 3) ≡ y
        → same p.session_id "s1" ≡ z
        → (x && y && z) ≡ true
        → ann_payload ≡ p
    by_parts true true true ex ey ez e =
        let bid : 0 ≡ p.biz_id = ground arith in
        let uid : 3 ≡ p.user_id = ground arith in
        let sid = sym ((same_iff _ _).0 ez) in
        λ i. record { biz_id = bid i; user_id = uid i; session_id = sid i }
    by_parts true true false ex ey ez e = cc
    by_parts true false z ex ey ez e = cc
    by_parts false y z ex ey ez e = cc

one_token_law :
    (p : JwtPayload) (t : String) (m m' m'' : Keys)
    → one_token.encrypt p m ≡ (ok t, m')
    → one_token.decrypt t m'' ≡ (ok p, m'')
one_token_law p t m m' m'' h = by_test (is_ann p) refl h
  where
    by_test :
        (x : Bool)
        → is_ann p ≡ x
        → ◌≡◌ {A = Outcome String × Keys}
            ((if x then return "t" else fail (errorf "no token" [])) m)
            (ok t, m')
        → one_token.decrypt t m'' ≡ (ok p, m'')
    by_test true e h =
        let same_t : "t" ≡ t = cc in
        subst (λ u. one_token.decrypt u m'' ≡ (ok p, m'')) same_t
          (ap (λ q. (ok q, m'')) (is_ann-eq p e))
    by_test false e h = cc

-- A manager that gives its token at the time 0 and takes it until an hour has passed; the time
-- stands under a key.
abbrev time : Option ℕ → ℕ
time none = 0
time (some n) = n

abbrev time_in : Keys → ℕ
time_in s = time (s "clock")

abbrev expiring : Manager Keys
expiring = record {
  encrypt = λ p s. (if time_in s == 0 then one_token.encrypt p else fail (errorf "late" [])) s;
  decrypt =
      λ t s. (if ltb (time_in s) 3600 then one_token.decrypt t else fail (errorf "expired" [])) s;
}

expiring_law :
    (p : JwtPayload) (t : String) (m m' m'' : Keys)
    → expiring.encrypt p m ≡ (ok t, m')
    → time_in m'' < time_in m + 3600
    → expiring.decrypt t m'' ≡ (ok p, m'')
expiring_law p t m m' m'' h lt = by_time (time_in m == 0) refl h
  where
    by_time :
        (b : Bool)
        → (time_in m == 0) ≡ b
        → ◌≡◌ {A = Outcome String × Keys}
            ((if b then one_token.encrypt p else fail (errorf "late" [])) m)
            (ok t, m')
        → expiring.decrypt t m'' ≡ (ok p, m'')
    by_time true e k =
        let zero_time : time_in m ≡ 0 = ground arith in
        let in_time : ltb (time_in m'') 3600 ≡ true = ground arith in
        rw in_time (one_token_law p t m m' m'' k)
    by_time false e k = cc

expiring-Expires : Expires expiring
expiring-Expires = record { clock = time_in; expiration = 3600; decrypts = expiring_law }

unmoved :
    (b : Bool) (t : String) (m m' : Keys)
    → ◌≡◌ {A = Outcome String × Keys}
        ((if b then return "t" else fail (errorf "no token" [])) m)
        (ok t, m')
    → m ≡ m'
unmoved true t m m' h = cc
unmoved false t m m' h = cc

abbrev expiring_auth : DefaultAuthService Keys
expiring_auth = record auth { rt_manager = expiring }

abbrev a_minute_later : Keys
a_minute_later = write "clock" (some 60) no_keys

verify_refresh_token-generate_token_example :
    verify_refresh_token expiring_auth "t" a_minute_later ≡ (ok ann, a_minute_later)
unfolding generate_token expiring-Expires
verify_refresh_token-generate_token_example =
    verify_refresh_token-generate_token expiring_auth expiring-Expires ann "t" "t" no_keys no_keys
      a_minute_later (λ p t m m' h. rw (unmoved (is_ann p) t m m' h) (omega arith)) refl
      (omega arith)
