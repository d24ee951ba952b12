-- ===== src/Web/Session.antt =====
-- internal/pkg/xgin/xsession/handler.go and internal/api/session/redis_jwt_handler.go: sessions in
-- Redis, under a key made of the session id.
pub mod Life
use Prim.Native.String
use hermet.Base.{
  ℕ, String, ◌==◌, ℤ, is_positive, if◌then◌else◌, Error, is, errorf, redis_nil, List, [], Outcome,
  ok, err, Option, none, some, Exec, check, fail, return,
}

-- `xsession.Handler`
pub record SessionHandler (S : Type 0) : Type 0 where
  pub create_session : String → ℕ → Exec S (Unit {0})
  pub check_session : String → ℕ → Exec S (Unit {0})
  pub refresh_session : String → Exec S (Unit {0})
  pub clear_session : String → Exec S (Unit {0})

-- `redis.Cmdable`: the commands that the handler sends. A key that is missing or has expired makes
-- `get` fail with `redis.Nil`.
pub record Redis (S : Type 0) : Type 0 where
  pub set_key : String → ℕ → ℤ → Exec S (Unit {0})
  pub get_key : String → Exec S ℕ
  pub expire_key : String → ℤ → Exec S (Unit {0})
  pub del_key : String → Exec S (Unit {0})

pub record RedisSessionHandler (S : Type 0) : Type 0 where
  pub rdb : Redis S
  pub expiration : ℤ

-- `key`: "user:sid:" and the session id
unfoldable pub session_key : String → String
session_key sid = String.◌++◌ "user:sid:" sid

module _ {S : Type 0} where
  -- A nil client is `none`.
  unfoldable pub new_redis_session_handler : Option (Redis S) → ℤ → Outcome (RedisSessionHandler S)
  new_redis_session_handler none expiration = err (errorf "redis client is nil" [])
  new_redis_session_handler (some rdb) expiration =
      if is_positive expiration
      then ok (record { rdb = rdb; expiration = expiration })
      else err (errorf "expiration must be greater than 0" [])

  module _ (h : RedisSessionHandler S) where
    unfoldable pub create_session : String → ℕ → Exec S (Unit {0})
    create_session sid uid = h.rdb.set_key (session_key sid) uid h.expiration

    unfoldable pub check_session : String → ℕ → Exec S (Unit {0})
    check_session sid uid =
        check (h.rdb.get_key (session_key sid))
          (λ e. if is e redis_nil then fail (errorf "been signed out" []) else fail e)
          (λ stored_uid.
            if stored_uid == uid then return tt else fail (errorf "session user mismatch" []))

    unfoldable pub refresh_session : String → Exec S (Unit {0})
    refresh_session sid = h.rdb.expire_key (session_key sid) h.expiration

    unfoldable pub clear_session : String → Exec S (Unit {0})
    clear_session sid = h.rdb.del_key (session_key sid)

    unfoldable pub as_handler : SessionHandler S
    as_handler = record {
      create_session = create_session;
      check_session = check_session;
      refresh_session = refresh_session;
      clear_session = clear_session;
    }
