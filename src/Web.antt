-- ===== src/Web.antt =====
-- internal/pkg/xgin: the values of a request and a response, and the wrappers that turn a handler
-- into a gin handler (types.go, handler_wrapper.go). Sessions, the middleware and the routes'
-- handlers use these.
pub mod Answers
pub mod Jwt
pub mod Session
pub mod Cors
pub mod Engine
use hermet.Base.{
  ℕ, String, Option, none, some, Error, is, unauthorized, Exec, check, return, if◌then◌else◌,
}

-- `R`, with the type of its `Data`.
pub record R (D : Type 0) : Type 0 where
  pub code : ℕ
  pub msg : String
  pub payload : Option D

pub record ContextUser : Type 0 where
  pub bid : ℕ
  pub uid : ℕ
  pub sid : String

-- What stands under the key "auth-user" of a gin context: a user, or a value of another type.
pub data ContextValue : Type 0 where
  user : ContextUser → ContextValue
  other : ContextValue

-- What is written to the client.
pub data Response (D : Type 0) : Type 0 where
  json : ℕ → R D → Response D
  error_json : ℕ → Error → Response D
  abort : ℕ → Response D

abbrev pub status_ok : ℕ
status_ok = 200

abbrev pub status_bad_request : ℕ
status_bad_request = 400

abbrev pub status_unauthorized : ℕ
status_unauthorized = 401

abbrev pub status_internal_server_error : ℕ
status_internal_server_error = 500

-- A request as the wrappers see it: the value under "auth-user", and what gin's binding of the
-- body, the query or the path gives (`none`: gin has answered with status 400).
pub record Context (Req : Type 0) : Type 0 where
  pub auth_user : Option ContextValue
  pub bound : Option Req

unfoldable pub extract_auth_user : Option ContextValue → Option ContextUser
extract_auth_user none = none
extract_auth_user (some (user au)) = some au
extract_auth_user (some other) = none

abbrev pub error_response : {D : Type 0} → Error → Response D
error_response e =
    if is e unauthorized
    then abort status_unauthorized
    else error_json status_internal_server_error e

module _ {S : Type 0} {D : Type 0} where
  -- `writeRes` on what the handler returned
  unfoldable pub write_res : Exec S (R D) → Exec S (Response D)
  write_res m = check m (λ e. return (error_response e)) (λ r. return (json r.code r))

  abbrev pub or_unauthorized :
      Option ContextUser → (ContextUser → Exec S (Response D)) → Exec S (Response D)
  or_unauthorized none k = return (abort status_unauthorized)
  or_unauthorized (some au) k = k au

  abbrev pub or_bad_request :
      {Req : Type 0} → Option Req → (Req → Exec S (Response D)) → Exec S (Response D)
  or_bad_request none k = return (abort status_bad_request)
  or_bad_request (some req) k = k req

  unfoldable pub w :
      {Req : Type 0} → (Context Req → Exec S (R D)) → Context Req → Exec S (Response D)
  unfolding write_res
  w biz_func ctx = write_res (biz_func ctx)

  -- `U` and `WU`
  unfoldable pub u :
      {Req : Type 0} → (ContextUser → Exec S (R D)) → Context Req → Exec S (Response D)
  unfolding write_res extract_auth_user
  u biz_func ctx = or_unauthorized (extract_auth_user ctx.auth_user) (λ au. write_res (biz_func au))

  -- `B`, `Q` and `P`, which differ in what is bound
  unfoldable pub b : {Req : Type 0} → (Req → Exec S (R D)) → Context Req → Exec S (Response D)
  unfolding write_res
  b biz_func ctx = or_bad_request ctx.bound (λ req. write_res (biz_func req))

  -- `BU`, `QU` and `PU`
  unfoldable pub bu :
      {Req : Type 0} → (Req → ContextUser → Exec S (R D)) → Context Req → Exec S (Response D)
  unfolding write_res extract_auth_user
  bu biz_func ctx =
      or_bad_request ctx.bound (λ req.
        or_unauthorized (extract_auth_user ctx.auth_user) (λ au. write_res (biz_func req au)))
