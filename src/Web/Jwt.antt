-- ===== src/Web/Jwt.antt =====
-- internal/pkg/xgin/middleware/jwt.go: the middleware that reads the access token.
pub mod Passes
use Prim.Native.Char.{code}
use hermet.Base.{
  ℕ, String, Bool, false, Option, none, some, same, ◌==◌, if◌then◌else◌, Exec, check, return,
}
use hermet.Web.Session.{SessionHandler}
use hermet.Web.{ContextUser, ContextValue, user, Response, abort, status_unauthorized}

-- `authv1.JwtPayload`
pub record JwtPayload : Type 0 where
  pub biz_id : ℕ
  pub user_id : ℕ
  pub session_id : String

-- `xjwt.Manager[authv1.JwtPayload]`: tokens from payloads, and the payload of a token that is
-- valid.
pub record Manager (S : Type 0) : Type 0 where
  pub encrypt : JwtPayload → Exec S String
  pub decrypt : String → Exec S JwtPayload

-- What is left of `s` after the prefix `p`.
unfoldable pub strip : String → String → Option String
strip String.[] s = some s
strip (String.◌∷◌ c p) String.[] = none
strip (String.◌∷◌ c p) (String.◌∷◌ d s) =
    let rest = strip p s in if code c == code d then rest else none

abbrev or_whole : Option String → String → String
or_whole none s = s
or_whole (some t) s = t

-- `strings.TrimPrefix(s, p)`
unfoldable pub trim_prefix : String → String → String
unfolding strip
trim_prefix s p = or_whole (strip p s) s

-- The session handler is not used.
pub record JwtBuilder (S : Type 0) : Type 0 where
  pub handler : SessionHandler S
  pub at_manager : Manager S
  pub ignores : Option (String → Bool)

abbrev pub is_ignored : Option (String → Bool) → String → Bool
is_ignored none path = false
is_ignored (some exist) path = exist path

module _ {S D : Type 0} where
  -- The handler that `Build` returns, on a path and the header "x-access-token"; `next` is the rest
  -- of the chain, given what stands under "auth-user".
  unfoldable pub build :
      JwtBuilder S
      → String
      → String
      → Option ContextValue
      → (Option ContextValue → Exec S (Response D))
      → Exec S (Response D)
  build b path header before next =
      let token = trim_prefix header "Bearer " in
      if is_ignored b.ignores path
      then next before
      else if same token ""
      then return (abort status_unauthorized)
      else check (b.at_manager.decrypt token) (λ _. return (abort status_unauthorized))
          (λ p. next (some (user (record { bid = p.biz_id; uid = p.user_id; sid = p.session_id }))))
