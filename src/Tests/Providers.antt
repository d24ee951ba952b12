-- ===== src/Tests/Providers.antt =====
-- The providers of internal/pkg/providers, the origins of middleware/cors.go and the configuration of
-- cmd/main.go, at concrete libraries and configurations.
use hermet.Base.{
  ℕ, pos, ◌≡◌, refl, String, Bool, true, false, same, if◌then◌else◌, none, some, List, [], ◌∷◌,
  ◌++◌, Error, errorf, Outcome, ok, err, Exec,
}
use hermet.Providers.Hooks.{append}
use hermet.Providers.Mongo.{
  MongoConfig, Mongo, new_coll_manager, tls_config, mongo_hook, new_mongo_client,
}
use hermet.Providers.Mongo.Connected.{Connected, new_mongo_client-Connected}
use hermet.Providers.Clients.{RedisLib, new_redis_cmdable, Zap, new_logger}
use hermet.Providers.Careful.{LeavesNothing, providers-LeaveNothing}
use hermet.Providers.Kafka.{
  KafkaConfig, scram, KafkaWriter, new_writer, new_kafka_client, configure_kafka_tls,
  configure_kafka_sasl, configure_kafka_sasl_scram,
}
use hermet.Providers.Kafka.Readers.{
  ReaderConfig, result_for, writer_hook, load_kafka_config, kafka_clients, SecureReaders,
  kafka_clients-SecureReaders,
}
use hermet.Web.Cors.{Hostname, CorsBuilder, configured_cors_builder}
use hermet.Web.Cors.Origins.{Treats, configured_cors_builder-Treats}
use hermet.App.Config.{Viper, merge_all, merge_error, load_config, Loading, load_config-Loading}

abbrev closes : ℕ → Exec ℕ (Unit {0})
closes c n = (ok tt, n)

abbrev mongo : Mongo ℕ ℕ ℕ ℕ String
mongo = record {
  certs_from_pem = λ pem. if same pem "" then none else some 1;
  x509_key_pair = λ pem key. ok 2;
  connect = λ opts. ok 3;
  ping = λ t c. closes c;
  disconnect = λ t c. closes c;
  collection_of = λ c db name. name;
}

abbrev mongo_config : MongoConfig
mongo_config = record {
  uri = "mongodb://localhost";
  db_name = "hermet";
  app_name = "hermet";
  auth_source = "admin";
  username = "u";
  password = "p";
  max_pool_size = 10;
  max_conn_idle_time = 60;
  connect_timeout = 5;
  server_selection_timeout = 5;
  startup_timeout = 5;
  shutdown_timeout = 5;
  tls = record { ca = "pem"; cert_key = "key"; cert_pem = "cert" };
}

new_mongo_client-Connected_example :
    Connected mongo
      (ok mongo_config)
      []
      (mongo_hook mongo mongo_config 3 ∷ [])
      3
      (record { client = 3; db_name = "hermet" })
unfolding new_mongo_client new_coll_manager tls_config append
new_mongo_client-Connected_example =
    new_mongo_client-Connected mongo (ok mongo_config) [] (mongo_hook mongo mongo_config 3 ∷ []) 3
      (record { client = 3; db_name = "hermet" }) refl

abbrev redis : RedisLib ℕ ℕ
redis = record { new_client = λ cfg. 1; ping = closes; close_client = closes }

abbrev zap : Zap ℕ ℕ
zap = record { new_production = err (errorf "zap" []); new_development = ok 1; sync = closes }

providers-LeaveNothing_example :
    LeavesNothing (new_redis_cmdable redis (ok (record { addr = "a"; password = "p" })))
    × LeavesNothing (new_mongo_client mongo (ok mongo_config))
    × LeavesNothing (new_logger zap (ok "prod"))
providers-LeaveNothing_example =
    providers-LeaveNothing redis mongo zap (ok (record { addr = "a"; password = "p" }))
      (ok mongo_config) (ok "prod")

abbrev pool : String → Outcome ℕ
pool pem = ok 1

abbrev sha256 : String → String → Outcome ℕ
sha256 name passwd = ok 2

abbrev kafka : KafkaConfig
kafka = record {
  brokers = "localhost:9092" ∷ [];
  producer = record {
    required_acks = pos 1;
    compression = "lz4";
    max_message_bytes = 1048576;
    retry_max = 3;
    batch_size = 100;
    batch_timeout = 10;
    write_timeout = 10;
    idempotent_enabled = true;
  };
  consumer = record {
    read_timeout = 10;
    commit_interval = 1;
    start_offset = pos 0;
    min_bytes = 1;
    max_bytes = 100;
    max_wait = 1;
  };
  ca = "pem";
  sasl = record {
    mechanism = "";
    username = "u";
    password = "p";
    oauth = record { endpoint = ""; client_id = ""; client_secret = "" };
  };
}

abbrev new_reader : ReaderConfig ℕ ℕ → String
new_reader cfg = cfg.topic

abbrev close_writer : KafkaWriter ℕ ℕ → Exec ℕ (Unit {0})
close_writer w n = (ok tt, n)

abbrev writer : KafkaWriter ℕ ℕ
writer =
    new_writer pool sha256 kafka
      (record { min_version = 772; insecure_skip_verify = false; root_cas = 1 }) (scram 2)

kafka_clients-SecureReaders_example :
    SecureReaders pool sha256 new_reader close_writer
      (ok kafka)
      []
      (writer_hook pool sha256 new_reader close_writer writer ∷ [])
      (result_for pool sha256 new_reader close_writer kafka writer)
unfolding kafka_clients load_kafka_config new_kafka_client configure_kafka_tls configure_kafka_sasl
    configure_kafka_sasl_scram append
kafka_clients-SecureReaders_example =
    kafka_clients-SecureReaders pool sha256 new_reader close_writer (ok kafka) []
      (writer_hook pool sha256 new_reader close_writer writer ∷ [])
      (result_for pool sha256 new_reader close_writer kafka writer) refl

-- Every origin is its own host name.
abbrev hostname : Hostname
hostname origin = ok origin

abbrev hosts : List String
hosts = "localhost" ∷ []

abbrev cors_builder : Outcome CorsBuilder → CorsBuilder
cors_builder (ok b) = b
cors_builder _ = record {
  allow_credentials = false;
  allow_methods = [];
  allow_headers = [];
  expose_headers = [];
  max_age = 0;
  allow_origin_func = λ o. false;
}

configured_cors_builder-Treats_example :
    (age : ℕ) × (hostnames : List String) × (◌≡◌ {A = Outcome (ℕ × List String)}
      (ok (5, hosts))
      (ok (age, hostnames)))
    × Treats hostname hostnames (cors_builder (configured_cors_builder hostname (ok (5, hosts))))
unfolding configured_cors_builder
configured_cors_builder-Treats_example =
    configured_cors_builder-Treats hostname (ok (5, hosts))
      (cors_builder (configured_cors_builder hostname (ok (5, hosts)))) refl

-- The names that were merged, after the name of the next file. There is no kafka.yaml.
abbrev Files : Type 0
Files = String × List String

abbrev missing : Error
missing = errorf "no such file" []

abbrev merging : Bool → Files → Outcome (Unit {0}) × Files
merging true fs = (err missing, fs)
merging false (name, merged) = (ok tt, (name, merged ++ name ∷ []))

abbrev viper : Viper Files
viper = record {
  add_config_path = λ path fs. fs;
  set_config_type = λ t fs. fs;
  set_config_name = λ name fs. (name, fs.1);
  read_in_config = λ fs. merging false fs;
  merge_in_config = λ fs. merging (same fs.0 "kafka") fs;
}

load_config-Loading_example :
    Loading viper
      ("", [])
      ("kafka", "base" ∷ "redis" ∷ "db" ∷ "mongodb" ∷ [])
      (err (merge_error "kafka" missing))
unfolding load_config merge_all
load_config-Loading_example =
    load_config-Loading viper ("", []) ("kafka", "base" ∷ "redis" ∷ "db" ∷ "mongodb" ∷ [])
      (err (merge_error "kafka" missing)) refl
