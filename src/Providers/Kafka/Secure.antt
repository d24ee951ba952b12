-- ===== src/Providers/Kafka/Secure.antt =====
-- kafka.go: a writer that is made speaks TLS and authenticates itself.
use hermet.Base.{
  subst, zero, suc, ℤ, pos, negsuc, ◌≡◌, ◌≢◌, ◌⊎◌, inl, inr, refl, String, Bool, true, false, same,
  same-ne, same_iff, if◌then◌else◌, Outcome, ok, err, panic, pending, then_do-eq-ok,
}
use hermet.Providers.OAuth.{new_kafka_oauth_mechanism}
use hermet.Providers.Kafka.{
  TlsConfig, KafkaConfig, KafkaSaslConfig, Mechanism, scram, oauth_bearer, require_all,
  get_kafka_required_acks, configure_kafka_tls, configure_kafka_sasl, configure_kafka_sasl_scram,
  configure_kafka_sasl_oauth, KafkaWriter, new_writer, new_kafka_client, no_certs,
}
use hermet.Providers.Shards.{wrap_err}

module _ {Pool Scram : Type 0} (certs_from_pem : String → Outcome Pool)
    (scram_sha256 : String → String → Outcome Scram) where
  -- The mechanism has credentials, none of them empty.
  pub data Authenticates (cfg : KafkaSaslConfig) (m : Mechanism Scram) : Type 0 where
    by_scram :
        (sc : Scram)
        → cfg.username ≢ ""
        → cfg.password ≢ ""
        → scram_sha256 cfg.username cfg.password ≡ ok sc
        → m ≡ scram sc
        → Authenticates cfg m
    by_oauth :
        cfg.mechanism ≡ "oauth"
        → cfg.oauth.endpoint ≢ ""
        → cfg.oauth.client_id ≢ ""
        → cfg.oauth.client_secret ≢ ""
        → m
          ≡ oauth_bearer (
              new_kafka_oauth_mechanism cfg.oauth.endpoint cfg.oauth.client_id
                cfg.oauth.client_secret)
        → Authenticates cfg m

  made_scram :
      (r : Outcome Scram) (m : Mechanism Scram)
      → wrap_err {B = Mechanism Scram} "failed to create SASL/SCRAM mechanism: %w" r
          (λ x. ok (scram x))
        ≡ ok m
      → (x : Scram) × (r ≡ ok x) × (m ≡ scram x)
  made_scram (ok a) m h = (a, refl, cc)
  made_scram (err e) m h = cc
  made_scram panic m h = cc
  made_scram pending m h = cc

  scram_cases :
      (cfg : KafkaSaslConfig) (m : Mechanism Scram) (a b : Bool)
      → same cfg.username "" ≡ a
      → same cfg.password "" ≡ b
      → configure_kafka_sasl_scram scram_sha256 cfg ≡ ok m
      → Authenticates cfg m
  unfolding configure_kafka_sasl_scram
  scram_cases cfg m true b ea eb h = let k = rw ea at h in cc
  scram_cases cfg m false true ea eb h = let k = rw (ea, eb) at h in cc
  scram_cases cfg m false false ea eb h =
      let (x, e, k) = made_scram (scram_sha256 cfg.username cfg.password) m (rw (ea, eb) at h) in
      by_scram x (same-ne ea) (same-ne eb) e k

  oauth_cases :
      (cfg : KafkaSaslConfig) (m : Mechanism Scram) (a b c : Bool)
      → cfg.mechanism ≡ "oauth"
      → same cfg.oauth.endpoint "" ≡ a
      → same cfg.oauth.client_id "" ≡ b
      → same cfg.oauth.client_secret "" ≡ c
      → configure_kafka_sasl_oauth scram_sha256 cfg.oauth ≡ ok m
      → Authenticates cfg m
  unfolding configure_kafka_sasl_oauth
  oauth_cases cfg m true b c o ea eb ec h = let k = rw ea at h in cc
  oauth_cases cfg m false true c o ea eb ec h = let k = rw (ea, eb) at h in cc
  oauth_cases cfg m false false true o ea eb ec h = let k = rw (ea, eb, ec) at h in cc
  oauth_cases cfg m false false false o ea eb ec h =
      let k = rw (ea, eb, ec) at h in by_oauth o (same-ne ea) (same-ne eb) (same-ne ec) cc

  sasl_cases :
      (cfg : KafkaSaslConfig) (m : Mechanism Scram) (a b c : Bool)
      → same cfg.mechanism "" ≡ a
      → same cfg.mechanism "scram" ≡ b
      → same cfg.mechanism "oauth" ≡ c
      → configure_kafka_sasl scram_sha256 cfg ≡ ok m
      → Authenticates cfg m
  unfolding configure_kafka_sasl
  sasl_cases cfg m true b c ea eb ec h = scram_cases cfg m _ _ refl refl (rw ea at h)
  sasl_cases cfg m false true c ea eb ec h = scram_cases cfg m _ _ refl refl (rw (ea, eb) at h)
  sasl_cases cfg m false false true ea eb ec h =
      oauth_cases cfg m _ _ _ ((same_iff _ _).0 ec) refl refl refl (rw (ea, eb, ec) at h)
  sasl_cases cfg m false false false ea eb ec h = let k = rw (ea, eb, ec) at h in cc

  certs_of : (r : Outcome Pool) (pool : Pool) → no_certs certs_from_pem r ≡ ok pool → r ≡ ok pool
  certs_of (ok a) pool h = h
  certs_of (err e) pool h = cc
  certs_of panic pool h = cc
  certs_of pending pool h = cc

  -- The server is verified against the configured certificates, from TLS 1.3 on.
  pub record Verifies (ca : String) (tls : TlsConfig Pool) : Type 0 where
    pub ca_given : ca ≢ ""
    pub has_certs : certs_from_pem ca ≡ ok tls.root_cas
    pub from_13 : tls.min_version ≡ 772
    pub never_skips : tls.insecure_skip_verify ≡ false

  tls_cases :
      (ca : String) (tls : TlsConfig Pool) (a : Bool)
      → same ca "" ≡ a
      → configure_kafka_tls certs_from_pem ca ≡ ok tls
      → Verifies ca tls
  unfolding configure_kafka_tls
  tls_cases ca tls true ea h = let k = rw ea at h in cc
  tls_cases ca tls false ea h =
      let (pool, e, made) =
        then_do-eq-ok (no_certs certs_from_pem (certs_from_pem ca)) _ (rw ea at h) in
      let same_tls : record { min_version = 772; insecure_skip_verify = false; root_cas = pool }
          ≡ tls =
        cc in
      subst (Verifies ca) same_tls (record {
        ca_given = same-ne ea;
        has_certs = certs_of (certs_from_pem ca) pool e;
        from_13 = refl;
        never_skips = refl;
      })

  acks_of :
      (idempotent : Bool) (acks : ℤ)
      → (if idempotent then require_all else get_kafka_required_acks acks) ≡ require_all
        ⊎ ((idempotent ≡ false) × ((acks ≡ pos 0) ⊎ (acks ≡ pos 1)))
  unfolding get_kafka_required_acks
  acks_of true acks = inl refl
  acks_of false (pos zero) = inr (refl, inl refl)
  acks_of false (pos (suc zero)) = inr (refl, inr refl)
  acks_of false (pos (suc (suc n))) = inl refl
  acks_of false (negsuc n) = inl refl

  -- What a writer that was made has.
  pub record Secure (cfg : KafkaConfig) (w : KafkaWriter Pool Scram) : Type 0 where
    pub verifies : Verifies cfg.ca w.tls
    pub authenticates : Authenticates cfg.sasl w.sasl
    pub acks :
        (w.required_acks ≡ require_all)
        ⊎ ((cfg.producer.idempotent_enabled ≡ false)
            × ((cfg.producer.required_acks ≡ pos 0) ⊎ (cfg.producer.required_acks ≡ pos 1)))
    pub synchronous : w.async ≡ false

  -- A writer is made only with a certificate text that gives a pool, against which it verifies the
  -- server, from TLS 1.3 on, and with credentials of which
  -- none is empty, for SCRAM or, where the configuration says "oauth", for OAuth. It waits for all
  -- replicas, except where idempotence is off and the configuration asks for no acknowledgement or
  -- for the leader's alone, and it is synchronous.
  pub new_kafka_client-Secure :
      (cfg : KafkaConfig) (w : KafkaWriter Pool Scram)
      → new_kafka_client certs_from_pem scram_sha256 cfg ≡ ok w
      → Secure cfg w
  unfolding new_kafka_client new_writer
  new_kafka_client-Secure cfg w h =
      let (pool, e₁, h₁) = then_do-eq-ok (configure_kafka_tls certs_from_pem cfg.ca) _ h in
      let (m, e₂, h₂) = then_do-eq-ok (configure_kafka_sasl scram_sha256 cfg.sasl) _ h₁ in
      let tls = tls_cases cfg.ca pool _ refl e₁ in
      let made : new_writer certs_from_pem scram_sha256 cfg pool m ≡ w = cc in
      subst (λ x. Secure cfg x) made
        (record {
          verifies = tls;
          authenticates = sasl_cases cfg.sasl m _ _ _ refl refl refl e₂;
          acks = acks_of cfg.producer.idempotent_enabled cfg.producer.required_acks;
          synchronous = refl;
        })
