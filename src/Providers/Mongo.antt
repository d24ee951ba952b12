-- ===== src/Providers/Mongo.antt =====
-- internal/pkg/providers/mongodb.go and internal/pkg/xmongo/coll_manager.go: the client of mongo
-- from its configuration, with TLS and, where a name is given, a credential. The driver, x509 and
-- tls are parameters; the texts of the log are left out.
pub mod Connected
use hermet.Base.{
  ℕ, ◌≡◌, ◌≢◌, ◌⊎◌, inl, inr, refl, sym, ap, ◌∙◌, String, Bool, true, false, not, Option, none,
  some, List, [], ◌∷◌, ◌++◌, same, same-ne, same_iff, if◌then◌else◌, Error, errorf, wrap, Outcome,
  ok, err, panic, pending, Exec, lift, return, check, fail, ◌>>=◌, then_do,
}
use hermet.Providers.Shards.{wrap_err}
use hermet.Providers.Hooks.{Hook, Lifecycle, append, or_fail}

pub record MongoTlsConfig : Type 0 where
  pub ca : String
  pub cert_key : String
  pub cert_pem : String

-- `mongoConfig`; a duration is in nanoseconds.
pub record MongoConfig : Type 0 where
  pub uri : String
  pub db_name : String
  pub app_name : String
  pub auth_source : String
  pub username : String
  pub password : String
  pub max_pool_size : ℕ
  pub max_conn_idle_time : ℕ
  pub connect_timeout : ℕ
  pub server_selection_timeout : ℕ
  pub startup_timeout : ℕ
  pub shutdown_timeout : ℕ
  pub tls : MongoTlsConfig

-- `tls.Config`; 1.3 is the smallest version.
pub record TlsConfig (Pool Cert : Type 0) : Type 0 where
  pub min_version : ℕ
  pub insecure_skip_verify : Bool
  pub root_cas : Pool
  pub certificates : List Cert

-- `tls.VersionTLS13`
abbrev pub version_tls13 : ℕ
version_tls13 = 772

pub record Credential : Type 0 where
  pub username : String
  pub password : String
  pub auth_source : String

-- `options.ClientOptions`, as it is filled here.
pub record ClientOptions (Pool Cert : Type 0) : Type 0 where
  pub uri : String
  pub app_name : String
  pub tls : TlsConfig Pool Cert
  pub max_pool_size : ℕ
  pub max_conn_idle_time : ℕ
  pub connect_timeout : ℕ
  pub server_selection_timeout : ℕ
  pub auth : Option Credential

-- `mongo.Connect`, `Ping`, `Disconnect` and `Database(…).Collection(…)`, and what reads the
-- certificates: a text without a certificate is one that `certs_from_pem` has no pool for.
pub record Mongo (S Pool Cert Client Collection : Type 0) : Type 0 where
  pub certs_from_pem : String → Option Pool
  pub x509_key_pair : String → String → Outcome Cert
  pub connect : ClientOptions Pool Cert → Outcome Client
  pub ping : ℕ → Client → Exec S (Unit {0})
  pub disconnect : ℕ → Client → Exec S (Unit {0})
  pub collection_of : Client → String → String → Collection

pub record CollManager (Client : Type 0) : Type 0 where
  pub client : Client
  pub db_name : String

unfoldable pub new_coll_manager : {Client : Type 0} → Client → String → CollManager Client
new_coll_manager client db_name = record { client = client; db_name = db_name }

unfoldable pub credential_for : MongoConfig → Option Credential
credential_for cfg =
    if same cfg.username ""
    then none
    else some (record {
      username = cfg.username;
      password = cfg.password;
      auth_source = if same cfg.auth_source "" then "" else cfg.auth_source;
    })

module _ {S Pool Cert Client Collection : Type 0}
    (mongo : Mongo S Pool Cert Client Collection) where
  unfoldable pub collection : CollManager Client → String → Collection
  collection m name = mongo.collection_of m.client m.db_name name

  or_no_pool : Option Pool → Outcome Pool
  or_no_pool none = err (errorf "failed to append ca cert to pool" [])
  or_no_pool (some pool) = ok pool

  unfoldable pub tls_config : MongoTlsConfig → Outcome (TlsConfig Pool Cert)
  unfolding or_no_pool
  tls_config cfg = then_do (or_no_pool (mongo.certs_from_pem cfg.ca)) (λ pool.
      wrap_err "failed to load client cert: %w" (mongo.x509_key_pair cfg.cert_pem cfg.cert_key)
        (λ cert. ok (record {
          min_version = version_tls13;
          insecure_skip_verify = false;
          root_cas = pool;
          certificates = cert ∷ [];
        })))

  unfoldable pub client_options : MongoConfig → TlsConfig Pool Cert → ClientOptions Pool Cert
  unfolding credential_for
  client_options cfg tls = record {
    uri = cfg.uri;
    app_name = cfg.app_name;
    tls = tls;
    max_pool_size = cfg.max_pool_size;
    max_conn_idle_time = cfg.max_conn_idle_time;
    connect_timeout = cfg.connect_timeout;
    server_selection_timeout = cfg.server_selection_timeout;
    auth = credential_for cfg;
  }

  abbrev pub mongo_hook : MongoConfig → Client → Hook S
  mongo_hook cfg client = record {
    on_start = some (or_fail (mongo.ping cfg.startup_timeout client));
    on_stop = some (or_fail (mongo.disconnect cfg.shutdown_timeout client));
  }

  -- `newMongoClient`, over what viper reads for "mongodb"
  unfoldable pub new_mongo_client :
      Outcome MongoConfig → Exec (Lifecycle S) (Client × CollManager Client)
  unfolding new_coll_manager
  new_mongo_client read = do
    cfg ← lift read
    tls ← lift (tls_config cfg.tls)
    client ← lift (mongo.connect (client_options cfg tls))
    hooked ← append (mongo_hook cfg client)
    return (client, new_coll_manager client cfg.db_name)
