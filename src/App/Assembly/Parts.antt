-- ===== src/App/Assembly/Parts.antt =====
-- The parts of the assembled program: what storage and security are made of, and that neither has
-- touched the engine.
use hermet.Base.{
  ℕ, ◌≡◌, refl, sym, ap, ◌∙◌, subst, String, some, List, Outcome, ok, err, panic, pending, Exec,
  resume, fail, lift, ◌>>=◌, >>=-eq-ok, then_do-eq-ok,
}
use hermet.Snowflake.{extract_shard_val}
use hermet.Dao.Gorm.{Db}
use hermet.Sharding.Helper.{ShardHelper}
use hermet.Providers.Hooks.{Lifecycle}
use hermet.Providers.Shards.{shard_helper-eq-ok, configured-coherent}
use hermet.Providers.Shards.Configs.{
  biz_user_shard_helper, user_contact_shard_helper, contact_application_shard_helper,
  channel_application_shard_helper,
}
use hermet.Providers.Databases.Hooked.{hooked_db_clients}
use hermet.Providers.Databases.{Databases, DbConfig}
use hermet.Providers.Clients.{new_redis_cmdable, session_handler}
use hermet.Providers.Tokens.{new_jwt_manager, new_jwt_builder, Made, new_jwt_manager-Made}
use hermet.Web.Jwt.{Manager, JwtBuilder}
use hermet.Web.Session.{SessionHandler, as_handler}
use hermet.Web.Cors.{contains, configured_cors_builder}
use hermet.App.Libraries.{Settings, Libraries, Storage, Security}
use hermet.App.Assembly.{Boot, on_both, on_hooks, storage, security, helpers, secured}

module _ {E S : Type 0} where
  -- A call that leaves the engine as it was, however it ends.
  abbrev pub KeepsEngine : {A : Type 0} → Exec (Boot E S) A → Type 0
  KeepsEngine m = (b : Boot E S) → (m b).1.fx.engine ≡ b.fx.engine

  resume-KeepsEngine :
      {A C : Type 0} (o : Outcome A) (k : A → Exec (Boot E S) C) (b : Boot E S)
      → ((a : A) → KeepsEngine (k a))
      → (resume o fail k b).1.fx.engine ≡ b.fx.engine
  resume-KeepsEngine (ok a) k b h = h a b
  resume-KeepsEngine (err e) k b h = refl
  resume-KeepsEngine panic k b h = refl
  resume-KeepsEngine pending k b h = refl

  bind-KeepsEngine :
      {A C : Type 0} (m : Exec (Boot E S) A) (k : A → Exec (Boot E S) C)
      → KeepsEngine m
      → ((a : A) → KeepsEngine (k a))
      → KeepsEngine (m >>= k)
  bind-KeepsEngine m k h g b = resume-KeepsEngine (m b).0 k (m b).1 g ∙ h b

  on_both-KeepsEngine : {A : Type 0} (m : Exec (S × Lifecycle S) A) → KeepsEngine (on_both m)
  unfolding on_both
  on_both-KeepsEngine m b = refl

  on_hooks-KeepsEngine : {A : Type 0} (m : Exec (Lifecycle S) A) → KeepsEngine (on_hooks m)
  unfolding on_hooks
  on_hooks-KeepsEngine m b = refl

  lift-KeepsEngine : {A : Type 0} (o : Outcome A) → KeepsEngine (lift o)
  lift-KeepsEngine o b = refl

abbrev pub Coherent : {S : Type 0} → ShardHelper S → Type 0
Coherent h = (n : ℕ) → h.strategy.shard n ≡ h.strategy.dst_from_shard_val n

module _ {B S Sql Client : Type 0} (lib : Libraries B S Sql Client) (set : Settings) where
  contact_application-Coherent :
      (h : ShardHelper S)
      → contact_application_shard_helper set.sharding lib.id_generator extract_shard_val ≡ ok h
      → Coherent h
  unfolding contact_application_shard_helper
  contact_application-Coherent h e =
      let (cfg, _, made) = then_do-eq-ok (set.sharding "sharding.contact_application") _ e in
      let (_, _, _, _, same) =
        (shard_helper-eq-ok lib.id_generator extract_shard_val cfg h).0 made in
      subst Coherent (sym same) (configured-coherent lib.id_generator extract_shard_val cfg)

  helpers-Coherent :
      (dbs : Databases Db) (st : Storage S)
      → helpers lib set dbs ≡ ok st
      → Coherent st.contact_applications
  unfolding helpers
  helpers-Coherent dbs st h =
      let (u, _, h₁) =
        then_do-eq-ok (biz_user_shard_helper set.sharding lib.id_generator extract_shard_val) _ h in
      let (c, _, h₂) =
        then_do-eq-ok (user_contact_shard_helper set.sharding lib.id_generator extract_shard_val) _
          h₁ in
      let (a, e, h₃) =
        then_do-eq-ok
          (contact_application_shard_helper set.sharding lib.id_generator extract_shard_val) _ h₂ in
      let (d, _, h₄) =
        then_do-eq-ok
          (channel_application_shard_helper set.sharding lib.id_generator extract_shard_val) _ h₃ in
      let same : a ≡ st.contact_applications = cc in
      subst Coherent same (contact_application-Coherent a e)

  same_jwt_builder : (i j : JwtBuilder S) → ◌≡◌ {A = Outcome (JwtBuilder S)} (ok i) (ok j) → i ≡ j
  same_jwt_builder i j h = cc

  built_jwt :
      (handler : SessionHandler S) (m : Manager S) (read : Outcome (List String)) (j : JwtBuilder S)
      → new_jwt_builder handler m read ≡ ok j
      → (l : List String) × (read ≡ ok l) × (j.ignores ≡ some (contains l)) × (j.at_manager ≡ m)
  unfolding new_jwt_builder
  built_jwt handler m (ok l) j h =
      let same = same_jwt_builder _ j h in
      (l, refl, sym (ap (λ x. x.ignores) same), sym (ap (λ x. x.at_manager) same))
  built_jwt handler m (err e) j h = cc
  built_jwt handler m panic j h = cc
  built_jwt handler m pending j h = cc

  -- What the security of the program is made from.
  pub record Protected (sec : Security S) : Type 0 where
    pub ignores : List String
    pub ignores_read : set.ignores ≡ ok ignores
    pub ignores_kept : sec.jwt.ignores ≡ some (contains ignores)
    pub managers : Made set.jwt lib.new_ed25519_manager sec.managers
    pub access : sec.jwt.at_manager ≡ sec.managers.at_manager

  secured-Protected :
      (client : Client) (sec : Security S) → secured lib set client ≡ ok sec → Protected sec
  unfolding secured
  secured-Protected client sec h =
      let (s, _, h₁) =
        then_do-eq-ok (session_handler (some (lib.commands client)) set.expiration) _ h in
      let (ms, e₂, h₂) = then_do-eq-ok (new_jwt_manager set.jwt lib.new_ed25519_manager) _ h₁ in
      let (c, _, h₃) = then_do-eq-ok (configured_cors_builder lib.hostname set.cors) _ h₂ in
      let (j, e₄, h₄) =
        then_do-eq-ok (new_jwt_builder (as_handler s) ms.at_manager set.ignores) _ h₃ in
      let (l, e₅, kept, from) = built_jwt (as_handler s) ms.at_manager set.ignores j e₄ in
      let same_jwt : j ≡ sec.jwt = cc in
      let same_managers : ms ≡ sec.managers = cc in
      record {
        ignores = l;
        ignores_read = e₅;
        ignores_kept = subst (λ x. x.ignores ≡ some (contains l)) same_jwt kept;
        managers =
            subst (Made set.jwt lib.new_ed25519_manager) same_managers
              (new_jwt_manager-Made set.jwt lib.new_ed25519_manager ms e₂);
        access =
            subst (λ x. x.at_manager ≡ ms.at_manager) same_jwt from
            ∙ ap (λ x. x.at_manager) same_managers;
      }

module _ {B S Sql Client E : Type 0} (lib : Libraries B S Sql Client) (set : Settings) where
  abbrev from_dbs : DbConfig → Exec (Boot E S) (Storage S)
  from_dbs cfg = on_both (hooked_db_clients lib.driver cfg) >>= (λ dbs. lift (helpers lib set dbs))

  pub storage-KeepsEngine : KeepsEngine (storage lib set {E = E})
  unfolding storage
  storage-KeepsEngine = bind-KeepsEngine (lift set.db) from_dbs (lift-KeepsEngine set.db) (λ cfg.
      bind-KeepsEngine (on_both (hooked_db_clients lib.driver cfg))
        (λ dbs. lift (helpers lib set dbs)) (on_both-KeepsEngine (hooked_db_clients lib.driver cfg))
        (λ dbs. lift-KeepsEngine (helpers lib set dbs)))

  pub security-KeepsEngine : KeepsEngine (security lib set {E = E})
  unfolding security
  security-KeepsEngine =
      bind-KeepsEngine (on_hooks (new_redis_cmdable lib.redis set.redis))
        (λ client. lift (secured lib set client))
        (on_hooks-KeepsEngine (new_redis_cmdable lib.redis set.redis))
        (λ client. lift-KeepsEngine (secured lib set client))

  lifted : {A : Type 0} (o : Outcome A) (b b' : Boot E S) (a : A) → lift o b ≡ (ok a, b') → o ≡ ok a
  lifted o b b' a h = ap (λ x. x.0) h

  -- The helper of applications for contacts finds a shard value where it puts it.
  pub storage-coherent :
      (b b' : Boot E S) (st : Storage S)
      → storage lib set b ≡ (ok st, b')
      → (n : ℕ)
      → st.contact_applications.strategy.shard n
        ≡ st.contact_applications.strategy.dst_from_shard_val n
  unfolding storage
  storage-coherent b b' st h n =
      let (cfg, b₁, e₁, h₁) = >>=-eq-ok (lift set.db) from_dbs b h in
      let (dbs, b₂, e₂, h₂) =
        >>=-eq-ok (on_both (hooked_db_clients lib.driver cfg)) (λ dbs. lift (helpers lib set dbs))
          b₁ h₁ in
      helpers-Coherent lib set dbs st (lifted (helpers lib set dbs) b₂ b' st h₂) n

  pub security-Protected :
      (b b' : Boot E S) (sec : Security S)
      → security lib set b ≡ (ok sec, b')
      → Protected lib set sec
  unfolding security
  security-Protected b b' sec h =
      let (client, b₁, e₁, h₁) =
        >>=-eq-ok (on_hooks (new_redis_cmdable lib.redis set.redis))
          (λ client. lift (secured lib set client)) b h in
      secured-Protected lib set client sec (lifted (secured lib set client) b₁ b' sec h₁)
