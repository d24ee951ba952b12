-- ===== src/Providers/Kafka.antt =====
-- internal/pkg/providers/kafka.go: TLS, SASL and the writer, from the configuration. The texts of
-- the logger are left out.
pub mod Secure
pub mod Readers
use hermet.Base.{
  ℕ, ℤ, pos, negsuc, zero, suc, String, Bool, true, false, ◌||◌, List, [], ◌∷◌, same, if◌then◌else◌,
  Error, errorf, wrap, Outcome, ok, err, panic, pending, then_do,
}
use hermet.Providers.Shards.{wrap_err}
use hermet.Providers.OAuth.{OauthMechanism, new_kafka_oauth_mechanism}

pub record KafkaOauthConfig : Type 0 where
  pub endpoint : String
  pub client_id : String
  pub client_secret : String

pub record KafkaSaslConfig : Type 0 where
  pub mechanism : String
  pub username : String
  pub password : String
  pub oauth : KafkaOauthConfig

pub record KafkaProducerConfig : Type 0 where
  pub required_acks : ℤ
  pub compression : String
  pub max_message_bytes : ℕ
  pub retry_max : ℕ
  pub batch_size : ℕ
  pub batch_timeout : ℕ
  pub write_timeout : ℕ
  pub idempotent_enabled : Bool

-- `kafkaConsumerConfig`; durations are in nanoseconds.
pub record KafkaConsumerConfig : Type 0 where
  pub read_timeout : ℕ
  pub commit_interval : ℕ
  pub start_offset : ℤ
  pub min_bytes : ℕ
  pub max_bytes : ℕ
  pub max_wait : ℕ

pub record KafkaConfig : Type 0 where
  pub brokers : List String
  pub producer : KafkaProducerConfig
  pub consumer : KafkaConsumerConfig
  pub ca : String
  pub sasl : KafkaSaslConfig

-- `kafka.RequiredAcks` and `kafka.Compression`
pub data RequiredAcks : Type 0 where
  require_none require_one require_all : RequiredAcks

pub data Compression : Type 0 where
  no_compression gzip snappy lz4 zstd : Compression

unfoldable pub get_kafka_compression : String → Compression
get_kafka_compression compression =
    if same compression "gzip"
    then gzip
    else if same compression "snappy"
    then snappy
    else if same compression "lz4"
    then lz4
    else if same compression "zstd"
    then zstd
    else no_compression

unfoldable pub get_kafka_required_acks : ℤ → RequiredAcks
get_kafka_required_acks (pos zero) = require_none
get_kafka_required_acks (pos (suc zero)) = require_one
get_kafka_required_acks (pos (suc (suc n))) = require_all
get_kafka_required_acks (negsuc n) = require_all

-- `sasl.Mechanism`: what scram makes of a name and a password, or the OAuth mechanism.
pub data Mechanism (Scram : Type 0) : Type 0 where
  scram : Scram → Mechanism Scram
  oauth_bearer : OauthMechanism → Mechanism Scram

module _ {Scram : Type 0} (scram_sha256 : String → String → Outcome Scram) where
  unfoldable pub configure_kafka_sasl_scram : KafkaSaslConfig → Outcome (Mechanism Scram)
  configure_kafka_sasl_scram cfg =
      if same cfg.username "" || same cfg.password ""
      then err (errorf "username and password are required for SCRAM authentication" [])
      else wrap_err "failed to create SASL/SCRAM mechanism: %w"
          (scram_sha256 cfg.username cfg.password) (λ m. ok (scram m))

  unfoldable pub configure_kafka_sasl_oauth : KafkaOauthConfig → Outcome (Mechanism Scram)
  configure_kafka_sasl_oauth cfg =
      if same cfg.endpoint "" || same cfg.client_id "" || same cfg.client_secret ""
      then err (
          errorf "token_endpoint, client_id and client_secret are required for OAuth authentication"
            [])
      else ok
          (oauth_bearer (new_kafka_oauth_mechanism cfg.endpoint cfg.client_id cfg.client_secret))

  unfoldable pub configure_kafka_sasl : KafkaSaslConfig → Outcome (Mechanism Scram)
  configure_kafka_sasl cfg =
      let mechanism = if same cfg.mechanism "" then "scram" else cfg.mechanism in
      if same mechanism "scram"
      then configure_kafka_sasl_scram cfg
      else if same mechanism "oauth"
      then configure_kafka_sasl_oauth cfg.oauth
      else err (errorf "unsupported SASL mechanism: %s" (mechanism ∷ []))

-- `tls.Config`, as it is filled here.
pub record TlsConfig (Pool : Type 0) : Type 0 where
  pub min_version : ℕ
  pub insecure_skip_verify : Bool
  pub root_cas : Pool

-- `tls.VersionTLS13`
abbrev pub version_tls13 : ℕ
version_tls13 = 772

module _ {Pool : Type 0} (certs_from_pem : String → Outcome Pool) where
  -- A text without a certificate is what `AppendCertsFromPEM` answers with false; `certs_from_pem`
  -- is an error there.
  abbrev pub no_certs : Outcome Pool → Outcome Pool
  no_certs (ok pool) = ok pool
  no_certs (err e) = err (errorf "failed to append CA certificate to pool for kafka" [])
  no_certs panic = panic
  no_certs pending = pending

  unfoldable pub configure_kafka_tls : String → Outcome (TlsConfig Pool)
  configure_kafka_tls ca =
      if same ca ""
      then err (errorf "CA file is required" [])
      else then_do (no_certs (certs_from_pem ca)) (λ pool.
        ok (record { min_version = version_tls13; insecure_skip_verify = false; root_cas = pool }))

-- `kafka.Balancer`, of which the program uses the one by a hash of the key.
pub data Balancer : Type 0 where
  by_hash : Balancer

-- `kafka.Writer`, as it is filled here; the TLS and the mechanism are those of its transport.
pub record KafkaWriter (Pool Scram : Type 0) : Type 0 where
  pub brokers : List String
  pub balancer : Balancer
  pub compression : Compression
  pub max_attempts : ℕ
  pub batch_size : ℕ
  pub batch_timeout : ℕ
  pub read_timeout : ℕ
  pub write_timeout : ℕ
  pub required_acks : RequiredAcks
  pub async : Bool
  pub tls : TlsConfig Pool
  pub sasl : Mechanism Scram

module _ {Pool Scram : Type 0} (certs_from_pem : String → Outcome Pool)
    (scram_sha256 : String → String → Outcome Scram) where
  unfoldable pub new_writer :
      KafkaConfig → TlsConfig Pool → Mechanism Scram → KafkaWriter Pool Scram
  new_writer cfg tls sasl = record {
    brokers = cfg.brokers;
    balancer = by_hash;
    compression = get_kafka_compression cfg.producer.compression;
    max_attempts = cfg.producer.retry_max;
    batch_size = cfg.producer.batch_size;
    batch_timeout = cfg.producer.batch_timeout;
    read_timeout = cfg.consumer.read_timeout;
    write_timeout = cfg.producer.write_timeout;
    required_acks =
        if cfg.producer.idempotent_enabled
        then require_all
        else get_kafka_required_acks cfg.producer.required_acks;
    async = false;
    tls = tls;
    sasl = sasl;
  }

  -- `newKafkaClient`, for the writer
  unfoldable pub new_kafka_client : KafkaConfig → Outcome (KafkaWriter Pool Scram)
  new_kafka_client cfg = then_do (configure_kafka_tls certs_from_pem cfg.ca) (λ tls.
      then_do (configure_kafka_sasl scram_sha256 cfg.sasl) (λ sasl. ok (new_writer cfg tls sasl)))
