-- ===== src/Providers/OAuth.antt =====
-- internal/pkg/providers/kafka_oauth.go: the access token and its cache. The reader-writer lock is
-- let go between the first check and the second: `between` is what other goroutines do there.
pub mod Cache
use Prim.Native.String
use hermet.Base.{
  ℕ, ◌+◌, ◌-◌, ◌*◌, ◌%◌, ◌^◌, String, List, [], ◌∷◌, Bool, true, false, same, ◌==◌, ltb,
  if◌then◌else◌, Error, errorf, wrap, Outcome, ok, err, Exec, check, fail, return, ◌>>=◌, lift,
}
use hermet.Base.Decimal.{decimal}

-- `KafkaOAuthMechanism`; an instant is a number of nanoseconds.
pub record OauthMechanism : Type 0 where
  pub endpoint : String
  pub client_id : String
  pub client_secret : String
  pub access_token : String
  pub expires_at : ℕ

unfoldable pub new_kafka_oauth_mechanism : String → String → String → OauthMechanism
new_kafka_oauth_mechanism endpoint client_id client_secret = record {
  endpoint = endpoint;
  client_id = client_id;
  client_secret = client_secret;
  access_token = "";
  expires_at = 0;
}

-- `tokenRes`; `expires_in` is an int, given by its 64 bits.
pub record TokenRes : Type 0 where
  pub access_token : String
  pub token_type : String
  pub expires_in : ℕ

-- The clock, net/http, io and encoding/json, on a world `W`.
pub record Http (W Request Reply : Type 0) : Type 0 where
  pub now : Exec W ℕ
  pub new_request : String → String → String → Exec W Request
  pub do_request : Request → Exec W Reply
  pub read_all : Reply → Exec W String
  pub status_code : Reply → ℕ
  pub unmarshal : String → Outcome TokenRes

-- `time.Duration(expires_in - 60) * time.Second`, in 64 bits
unfoldable pub lifetime : ℕ → ℕ
lifetime expires_in = ((expires_in + (2 ^ 64 - 60)) % 2 ^ 64 * 1000000000) % 2 ^ 64

-- `t.Add(d)`, for the bits of a signed `d`
unfoldable pub add_duration : ℕ → ℕ → ℕ
add_duration t d = if ltb d (2 ^ 63) then t + d else t - (2 ^ 64 - d)

module _ {W Request Reply : Type 0} (http : Http W Request Reply) where
  abbrev pub in_world : {A : Type 0} → Exec W A → Exec (OauthMechanism × W) A
  in_world act (m, world) = ((act world).0, (m, (act world).1))

  abbrev or_wrap :
      {A B : Type 0}
      → String
      → Exec W A
      → (A → Exec (OauthMechanism × W) B)
      → Exec (OauthMechanism × W) B
  or_wrap text act k = check (in_world act) (λ e. fail (wrap text e)) k

  -- `m.accessToken != "" && time.Now().Before(m.expiresAt)`
  unfoldable pub is_fresh : Exec (OauthMechanism × W) Bool
  is_fresh (m, world) =
      if same m.access_token ""
      then return false (m, world)
      else (in_world http.now >>= (λ t. return (ltb t m.expires_at))) (m, world)

  abbrev pub cached_token : Exec (OauthMechanism × W) String
  cached_token (m, world) = return m.access_token (m, world)

  -- `m.accessToken = …; m.expiresAt = …; return m.accessToken, nil`
  unfoldable pub store_token : TokenRes → ℕ → Exec (OauthMechanism × W) String
  store_token res t (m, world) = return res.access_token (
    record m {
      access_token = res.access_token;
      expires_at = add_duration t (lifetime res.expires_in);
    },
    world,
  )

  -- The request and the parsed body of its response.
  unfoldable pub request_token : Exec (OauthMechanism × W) TokenRes
  request_token (m, world) =
      or_wrap "failed to create http request: %w"
        (http.new_request m.endpoint m.client_id m.client_secret)
        (λ req. or_wrap "failed to send http request: %w" (http.do_request req) (λ resp.
          or_wrap "failed to read http response body: %w" (http.read_all resp) (λ body.
            if http.status_code resp == 200
            then or_wrap "failed to parse http response body: %w" (lift (http.unmarshal body))
                return
            else fail (
                errorf "failed to get access token with status [ %d ], body: %s"
                  (decimal (http.status_code resp) ∷ body ∷ [])))))
        (m, world)

  -- What is done under the lock.
  unfoldable pub fetch_token : Exec (OauthMechanism × W) String
  fetch_token = do res ← request_token; t ← in_world http.now; store_token res t

  module _ (between : Exec (OauthMechanism × W) (Unit {0})) where
    unfoldable pub get_access_token : Exec (OauthMechanism × W) String
    get_access_token = is_fresh >>= (λ fresh.
        if fresh
        then cached_token
        else (between >>= (λ _. is_fresh))
          >>= (λ fresh_now. if fresh_now then cached_token else fetch_token))

    -- `Start`: the initial response of OAUTHBEARER.
    unfoldable pub start : Exec (OauthMechanism × W) String
    start =
        check get_access_token (λ e. fail (wrap "failed to get access token: %w" e))
          (λ token. return (String.◌++◌ "n,,\u{1}auth=Bearer " (String.◌++◌ token "\u{1}\u{1}")))
