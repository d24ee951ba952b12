-- ===== src/Providers/Mongo/Connected.antt =====
-- mongodb.go: what a client that was made is like, and that a failure leaves nothing behind.
use hermet.Base.{
  ◌≡◌, ◌≢◌, ◌⊎◌, inl, inr, String, if◌then◌else◌, refl, sym, ap, ◌∙◌, Bool, true, false, Option,
  none, some, [], ◌∷◌, ◌++◌, same, same-ne, same_iff, Outcome, ok, err, panic, pending, Exec,
  resume, lift, return, fail, ◌>>=◌,
}
use hermet.Providers.Hooks.{Lifecycle, append}
use hermet.Providers.Mongo.{
  MongoConfig, MongoTlsConfig, TlsConfig, Credential, Mongo, CollManager, new_coll_manager,
  credential_for, tls_config, client_options, mongo_hook, new_mongo_client, version_tls13,
  or_no_pool,
}

-- No credential where no name is configured, and the configured one otherwise.
abbrev pub Authenticates : MongoConfig → Option Credential → Type 0
Authenticates cfg auth =
    ((cfg.username ≡ "") × (auth ≡ none))
    ⊎ ((cfg.username ≢ "")
        × (auth
            ≡ some (record {
              username = cfg.username;
              password = cfg.password;
              auth_source = cfg.auth_source;
            })))

source_kept :
    (b : Bool) (source : String) → same source "" ≡ b → (if b then "" else source) ≡ source
source_kept true source h = sym ((same_iff source "").0 h)
source_kept false source h = refl

module _ {S Pool Cert Client Collection : Type 0}
    (mongo : Mongo S Pool Cert Client Collection) where
  -- What the configuration of TLS gives.
  pub record Verified (cfg : MongoTlsConfig) (tls : TlsConfig Pool Cert) : Type 0 where
    pub pool : Pool
    pub cert : Cert
    pub has_pool : mongo.certs_from_pem cfg.ca ≡ some pool
    pub has_cert : mongo.x509_key_pair cfg.cert_pem cfg.cert_key ≡ ok cert
    pub verifies : tls ≡ record {
      min_version = version_tls13;
      insecure_skip_verify = false;
      root_cas = pool;
      certificates = cert ∷ [];
    }

  tls_by :
      (o : Option Pool) (c : Outcome Cert) (cfg : MongoTlsConfig) (tls : TlsConfig Pool Cert)
      → mongo.certs_from_pem cfg.ca ≡ o
      → mongo.x509_key_pair cfg.cert_pem cfg.cert_key ≡ c
      → tls_config mongo cfg ≡ ok tls
      → Verified cfg tls
  unfolding tls_config or_no_pool
  tls_by none c cfg tls ho hc h = let k = rw ho at h in cc
  tls_by (some pool) (ok cert) cfg tls ho hc h = record {
    pool = pool;
    cert = cert;
    has_pool = ho;
    has_cert = hc;
    verifies = let k = rw (ho, hc) at h in cc;
  }
  tls_by (some pool) (err e) cfg tls ho hc h = let k = rw (ho, hc) at h in cc
  tls_by (some pool) panic cfg tls ho hc h = let k = rw (ho, hc) at h in cc
  tls_by (some pool) pending cfg tls ho hc h = let k = rw (ho, hc) at h in cc

  -- A client that was made.
  pub record Connected (read : Outcome MongoConfig) (l l' : Lifecycle S) (client : Client)
      (m : CollManager Client) : Type 0 where
    pub cfg : MongoConfig
    pub tls : TlsConfig Pool Cert
    pub configured : read ≡ ok cfg
    pub verified : Verified cfg.tls tls
    pub auth : Option Credential
    pub connected :
        mongo.connect (record {
          uri = cfg.uri;
          app_name = cfg.app_name;
          tls = tls;
          max_pool_size = cfg.max_pool_size;
          max_conn_idle_time = cfg.max_conn_idle_time;
          connect_timeout = cfg.connect_timeout;
          server_selection_timeout = cfg.server_selection_timeout;
          auth = auth;
        })
        ≡ ok client
    pub authenticates : Authenticates cfg auth
    pub manages : m ≡ record { client = client; db_name = cfg.db_name }
    pub one_hook : l' ≡ l ++ mongo_hook mongo cfg client ∷ []

  credential_by :
      (b : Bool) (cfg : MongoConfig)
      → same cfg.username "" ≡ b
      → Authenticates cfg (credential_for cfg)
  unfolding credential_for
  credential_by true cfg h = inl ((same_iff cfg.username "").0 h, rw h refl)
  credential_by false cfg h = inr (
    same-ne h,
    rw h (
        ap
          (λ source.
            some
              (record { username = cfg.username; password = cfg.password; auth_source = source }))
          (source_kept _ cfg.auth_source refl)),
  )

  made_of :
      (c client : Client) (m₀ m : CollManager Client) (l₀ l' : Lifecycle S)
      → ◌≡◌ {A = Outcome (Client × CollManager Client) × Lifecycle S}
          (ok (c, m₀), l₀)
          (ok (client, m), l')
      → (c ≡ client) × (m₀ ≡ m) × (l₀ ≡ l')
  made_of c client m₀ m l₀ l' h = (cc, cc, cc)

  module _ (cfg : MongoConfig) (l l' : Lifecycle S) (client : Client) (m : CollManager Client) where
    -- The last lines of the provider.
    abbrev connecting :
        TlsConfig Pool Cert → Client → Exec (Lifecycle S) (Client × CollManager Client)
    connecting tls c =
        append (mongo_hook mongo cfg c) >>= (λ _. return (c, new_coll_manager c cfg.db_name))

    after_connect :
        (o : Outcome Client) (tls : TlsConfig Pool Cert)
        → Verified cfg.tls tls
        → mongo.connect (client_options mongo cfg tls) ≡ o
        → resume o fail (connecting tls) l ≡ (ok (client, m), l')
        → Connected (ok cfg) l l' client m
    unfolding append new_coll_manager client_options
    after_connect (ok c) tls v e h =
        let (same_client, same_manager, same_hooks) = made_of c client _ m _ l' h in
        record {
          cfg = cfg;
          tls = tls;
          configured = refl;
          verified = v;
          connected = e ∙ ap ok same_client;
          auth = credential_for cfg;
          authenticates = credential_by _ cfg refl;
          manages =
              sym same_manager ∙ ap (λ x. record { client = x; db_name = cfg.db_name }) same_client;
          one_hook = sym same_hooks ∙ ap (λ x. l ++ mongo_hook mongo cfg x ∷ []) same_client;
        }
    after_connect (err x) tls v e h = cc
    after_connect panic tls v e h = cc
    after_connect pending tls v e h = cc

    after_tls :
        (o : Outcome (TlsConfig Pool Cert))
        → tls_config mongo cfg.tls ≡ o
        → resume o fail
            (λ tls. lift (mongo.connect (client_options mongo cfg tls)) >>= connecting tls)
            l
          ≡ (ok (client, m), l')
        → Connected (ok cfg) l l' client m
    after_tls (ok tls) e h = after_connect _ tls (tls_by _ _ cfg.tls tls refl refl e) refl h
    after_tls (err x) e h = cc
    after_tls panic e h = cc
    after_tls pending e h = cc

  pub new_mongo_client-Connected :
      (read : Outcome MongoConfig) (l l' : Lifecycle S) (client : Client) (m : CollManager Client)
      → new_mongo_client mongo read l ≡ (ok (client, m), l')
      → Connected read l l' client m
  unfolding new_mongo_client new_coll_manager append
  new_mongo_client-Connected (ok cfg) l l' client m h = after_tls cfg l l' client m _ refl h
  new_mongo_client-Connected (err e) l l' client m h = cc
  new_mongo_client-Connected panic l l' client m h = cc
  new_mongo_client-Connected pending l l' client m h = cc
