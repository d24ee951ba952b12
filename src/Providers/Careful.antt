-- ===== src/Providers/Careful.antt =====
-- internal/pkg/providers: a provider that fails has put no hook behind the others.
use hermet.Base.{◌≡◌, String, Outcome, ok, err, panic, pending, Error, Exec, lift, return, ◌>>=◌}
use hermet.Providers.Hooks.{Hook, append}
use hermet.Providers.Clients.{
  RedisConfig, RedisLib, redis_hook, new_redis_cmdable, Zap, logger_for, new_logger,
}
use hermet.Providers.Mongo.{
  MongoConfig, Mongo, tls_config, client_options, mongo_hook, new_mongo_client,
}

module _ {W A : Type 0} where
  abbrev pub LeavesNothing : Exec W A → Type 0
  LeavesNothing m = (l l' : W) (e : Error) → m l ≡ (err e, l') → l' ≡ l

  -- What only computes, and then goes on with the hooks as they were.
  lift-LeavesNothing :
      {B : Type 0} (r : Outcome B) (k : B → Exec W A)
      → ((b : B) → LeavesNothing (k b))
      → LeavesNothing (lift r >>= k)
  lift-LeavesNothing (ok b) k h l l' e x = h b l l' e x
  lift-LeavesNothing (err d) k h l l' e x = cc
  lift-LeavesNothing panic k h l l' e x = cc
  lift-LeavesNothing pending k h l l' e x = cc

append-LeavesNothing :
    {S A : Type 0} (hook : Hook S) (a : A) → LeavesNothing (append hook >>= (λ _. return a))
unfolding append
append-LeavesNothing hook a l l' e x = cc

module _ {S Client Pool Cert MongoClient Collection Logger : Type 0} (lib : RedisLib S Client)
    (mongo : Mongo S Pool Cert MongoClient Collection) (zap : Zap S Logger) where
  -- Each of the providers of Redis, of mongo and of the logger that returns an error, at whichever
  -- step, has left the hooks of the life cycle as they were, and that of the logger has left the
  -- default of slog.
  pub providers-LeaveNothing :
      (redis_read : Outcome RedisConfig) (mongo_read : Outcome MongoConfig)
      (env_read : Outcome String)
      → LeavesNothing (new_redis_cmdable lib redis_read)
        × LeavesNothing (new_mongo_client mongo mongo_read)
        × LeavesNothing (new_logger zap env_read)
  unfolding new_redis_cmdable new_mongo_client new_logger append
  providers-LeaveNothing redis_read mongo_read env_read = (
    lift-LeavesNothing redis_read _
        (λ cfg. append-LeavesNothing (redis_hook lib (lib.new_client cfg)) (lib.new_client cfg)),
    lift-LeavesNothing mongo_read _ (λ cfg. lift-LeavesNothing (tls_config mongo cfg.tls) _ (λ tls.
        lift-LeavesNothing (mongo.connect (client_options mongo cfg tls)) _
          (λ client. append-LeavesNothing (mongo_hook mongo cfg client) _))),
    lift-LeavesNothing env_read _
        (λ env. lift-LeavesNothing (logger_for zap env) _ (λ logger l l' e x. let k = x in cc)),
  )
