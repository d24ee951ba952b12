-- ===== src/Web/Session/Life.antt =====
-- redis_jwt_handler.go: the life of a session, from sign-in to sign-out.
use hermet.Base.{
  ℕ, String, ◌≡◌, ◌≢◌, refl, ℤ, errorf, sentinel, redis_nil, [], ok, err, Option, none, some, arith,
}
use hermet.Web.Session.{Redis, RedisSessionHandler, create_session, check_session, clear_session}

-- What Redis documents of its commands, with the value of a key as a function of the state: SET
-- makes the key hold the value, DEL makes it hold none, GET answers with the value and says
-- `redis.Nil` where there is none, and no command touches another key. Time that passes is not a
-- command.
pub record Reliable {S : Type 0} (r : Redis S) : Type 0 where
  pub value : S → String → Option ℕ
  pub set_sets :
      (k : String) (v : ℕ) (d : ℤ) (s s' : S)
      → r.set_key k v d s ≡ (ok tt, s')
      → (value s' k ≡ some v) × ((j : String) → j ≢ k → value s' j ≡ value s j)
  pub del_clears :
      (k : String) (s s' : S)
      → r.del_key k s ≡ (ok tt, s')
      → (value s' k ≡ none) × ((j : String) → j ≢ k → value s' j ≡ value s j)
  pub get_gets : (k : String) (v : ℕ) (s : S) → value s k ≡ some v → r.get_key k s ≡ (ok v, s)
  pub get_misses :
      (k : String) (s : S) → value s k ≡ none → r.get_key k s ≡ (err (sentinel redis_nil), s)

module _ {S : Type 0} (h : RedisSessionHandler S) (rel : Reliable h.rdb) where
  -- With a Redis that does what it documents: once a session is created for a user, the check
  -- passes for this user and changes nothing, and for any other user it is an error.
  pub check_session-create_session :
      (sid : String) (uid other : ℕ) (s s' : S)
      → create_session h sid uid s ≡ (ok tt, s')
      → other ≢ uid
      → (check_session h sid uid s' ≡ (ok tt, s'))
        × (check_session h sid other s' ≡ (err (errorf "session user mismatch" []), s'))
  unfolding create_session check_session
  check_session-create_session sid uid other s s' e ne =
      let g = rel.get_gets _ uid s' (rel.set_sets _ _ _ s s' e).0 in
      (rw g (ground arith), rw g (ground arith))

  -- With a Redis that does what it documents: once a session is cleared, the check fails for every
  -- user, with the error that says so.
  pub check_session-clear_session :
      (sid : String) (uid : ℕ) (s s' : S)
      → clear_session h sid s ≡ (ok tt, s')
      → check_session h sid uid s' ≡ (err (errorf "been signed out" []), s')
  unfolding clear_session check_session
  check_session-clear_session sid uid s s' e =
      rw (rel.get_misses _ s' (rel.del_clears _ s s' e).0) refl
