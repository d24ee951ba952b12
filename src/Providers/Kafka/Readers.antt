-- ===== src/Providers/Kafka/Readers.antt =====
-- kafka.go: the writer together with the function that makes readers, and the hook that closes the
-- writer; and the consumers of consumer/kafka_consumer.go over it. kafka-go is a parameter.
use hermet.Base.{
  ℕ, ℤ, ◌≡◌, refl, sym, subst, String, Bool, true, none, some, List, [], ◌∷◌, ◌++◌, Outcome, ok,
  err, panic, pending, Exec, lift, return, fail, ◌>>=◌, resume,
}
use hermet.Providers.Hooks.{Hook, Lifecycle, append, or_wrap}
use hermet.Providers.Shards.{wrap_err}
use hermet.Providers.Kafka.{TlsConfig, KafkaConfig, KafkaWriter, Mechanism, new_kafka_client}
use hermet.Providers.Kafka.Secure.{Secure, new_kafka_client-Secure}
use hermet.Mq.{new_kafka_consumer}
use hermet.Mq.Clients.{new_kafka_consumer_factory, new_consumer}

pub record Dialer (Pool Scram : Type 0) : Type 0 where
  pub timeout : ℕ
  pub dual_stack : Bool
  pub tls : TlsConfig Pool
  pub sasl_mechanism : Mechanism Scram

-- `kafka.ReaderConfig`, as it is filled here.
pub record ReaderConfig (Pool Scram : Type 0) : Type 0 where
  pub brokers : List String
  pub topic : String
  pub group_id : String
  pub min_bytes : ℕ
  pub max_bytes : ℕ
  pub max_wait : ℕ
  pub read_backoff_min : ℕ
  pub read_backoff_max : ℕ
  pub commit_interval : ℕ
  pub start_offset : ℤ
  pub dialer : Dialer Pool Scram

abbrev pub default_read_backoff_min : ℕ
default_read_backoff_min = 100000000

abbrev pub default_read_backoff_max : ℕ
default_read_backoff_max = 1000000000

abbrev pub default_dial_timeout : ℕ
default_dial_timeout = 10000000000

-- `kafkaFxResult`; a reader is what kafka-go makes of its configuration.
pub record KafkaResult (Pool Scram Reader : Type 0) : Type 0 where
  pub writer : KafkaWriter Pool Scram
  pub reader_create_func : String → String → Reader

module _ {S Pool Scram Reader : Type 0} (certs_from_pem : String → Outcome Pool)
    (scram_sha256 : String → String → Outcome Scram) (new_reader : ReaderConfig Pool Scram → Reader)
    (close_writer : KafkaWriter Pool Scram → Exec S (Unit {0})) where
  unfoldable pub reader_config :
      KafkaConfig → TlsConfig Pool → Mechanism Scram → String → String → ReaderConfig Pool Scram
  reader_config cfg tls sasl topic group_id = record {
    brokers = cfg.brokers;
    topic = topic;
    group_id = group_id;
    min_bytes = cfg.consumer.min_bytes;
    max_bytes = cfg.consumer.max_bytes;
    max_wait = cfg.consumer.max_wait;
    read_backoff_min = default_read_backoff_min;
    read_backoff_max = default_read_backoff_max;
    commit_interval = cfg.consumer.commit_interval;
    start_offset = cfg.consumer.start_offset;
    dialer = record {
      timeout = default_dial_timeout;
      dual_stack = true;
      tls = tls;
      sasl_mechanism = sasl;
    };
  }

  abbrev pub writer_hook : KafkaWriter Pool Scram → Hook S
  writer_hook writer = record {
    on_start = none;
    on_stop = some (or_wrap "failed to close kafka writer: %w" (close_writer writer));
  }

  -- `loadKafkaConfig`, over what viper reads for "kafka"
  unfoldable pub load_kafka_config : Outcome KafkaConfig → Outcome KafkaConfig
  load_kafka_config read = wrap_err "failed to unmarshal kafka config: %w" read (λ cfg. ok cfg)

  abbrev pub result_for : KafkaConfig → KafkaWriter Pool Scram → KafkaResult Pool Scram Reader
  result_for cfg writer = record {
    writer = writer;
    reader_create_func =
        λ topic group_id. new_reader (reader_config cfg writer.tls writer.sasl topic group_id);
  }

  -- `newKafkaClient` whole: the readers use the TLS and the mechanism of the writer.
  unfoldable pub kafka_clients :
      Outcome KafkaConfig → Exec (Lifecycle S) (KafkaResult Pool Scram Reader)
  unfolding load_kafka_config
  kafka_clients read = do
    cfg ← lift (load_kafka_config read)
    writer ← lift (new_kafka_client certs_from_pem scram_sha256 cfg)
    hooked ← append (writer_hook writer)
    return (result_for cfg writer)

  -- What every reader of a result is made from.
  pub record SecureReaders (read : Outcome KafkaConfig) (l l' : Lifecycle S)
      (result : KafkaResult Pool Scram Reader) : Type 0 where
    pub cfg : KafkaConfig
    pub configured : read ≡ ok cfg
    pub writer_secure : Secure certs_from_pem scram_sha256 cfg result.writer
    pub readers :
        (topic group_id : String)
        → new_consumer (new_kafka_consumer_factory result.reader_create_func) topic group_id
          ≡ ok (record {
            topic = topic;
            group_id = group_id;
            reader = new_reader (record {
              brokers = cfg.brokers;
              topic = topic;
              group_id = group_id;
              min_bytes = cfg.consumer.min_bytes;
              max_bytes = cfg.consumer.max_bytes;
              max_wait = cfg.consumer.max_wait;
              read_backoff_min = default_read_backoff_min;
              read_backoff_max = default_read_backoff_max;
              commit_interval = cfg.consumer.commit_interval;
              start_offset = cfg.consumer.start_offset;
              dialer = record {
                timeout = default_dial_timeout;
                dual_stack = true;
                tls = result.writer.tls;
                sasl_mechanism = result.writer.sasl;
              };
            });
            state = new_kafka_consumer;
          })
    pub one_hook : l' ≡ l ++ writer_hook result.writer ∷ []

  same_result :
      (r₀ r : KafkaResult Pool Scram Reader) (l₀ l' : Lifecycle S)
      → ◌≡◌ {A = Outcome (KafkaResult Pool Scram Reader) × Lifecycle S} (ok r₀, l₀) (ok r, l')
      → (r₀ ≡ r) × (l₀ ≡ l')
  same_result r₀ r l₀ l' h = (cc, cc)

  after_writer :
      (o : Outcome (KafkaWriter Pool Scram)) (cfg : KafkaConfig) (l l' : Lifecycle S)
      (result : KafkaResult Pool Scram Reader)
      → new_kafka_client certs_from_pem scram_sha256 cfg ≡ o
      → resume o fail (λ w. append (writer_hook w) >>= (λ _. return (result_for cfg w))) l
        ≡ (ok result, l')
      → SecureReaders (ok cfg) l l' result
  unfolding append new_consumer new_kafka_consumer_factory reader_config
  after_writer (ok w) cfg l l' result e h =
      let (same, same_hooks) = same_result (result_for cfg w) result _ l' h in
      subst (SecureReaders (ok cfg) l l') same (record {
        cfg = cfg;
        configured = refl;
        writer_secure = new_kafka_client-Secure certs_from_pem scram_sha256 cfg w e;
        readers = λ topic group_id. refl;
        one_hook = sym same_hooks;
      })
  after_writer (err x) cfg l l' result e h = cc
  after_writer panic cfg l l' result e h = cc
  after_writer pending cfg l l' result e h = cc

  pub kafka_clients-SecureReaders :
      (read : Outcome KafkaConfig) (l l' : Lifecycle S) (result : KafkaResult Pool Scram Reader)
      → kafka_clients read l ≡ (ok result, l')
      → SecureReaders read l l' result
  unfolding kafka_clients load_kafka_config
  kafka_clients-SecureReaders (ok cfg) l l' result h = after_writer _ cfg l l' result refl h
  kafka_clients-SecureReaders (err e) l l' result h = cc
  kafka_clients-SecureReaders panic l l' result h = cc
  kafka_clients-SecureReaders pending l l' result h = cc
