-- ===== src/Api/Routes.antt =====
-- The `Register` methods of internal/api (auth_handler.go, contact_handler.go, channel_handler.go,
-- admin_controller.go) and the registries that module.go provides: the routes, and what runs behind
-- each.
use hermet.Base.{Option, none, some, List, [], ◌∷◌, map, Exec, return, ◌>>=◌}
use hermet.Web.{R, Context, ContextValue, Response, json, error_json, abort, w, u, b, bu}
use hermet.Web.Engine.{Http, Route, Gin, RouteRegistry, handle_all}
use hermet.Service.User.{UserService}
use hermet.Service.Application.{ApplicationService}
use hermet.Service.Channel.{DefaultChannelService}
use hermet.Api.Auth.{
  SignInReq, TokenResp, RefreshTokenRequest, AuthHandler, sign_in, refresh_token, sign_out,
}
use hermet.Api.Contact.{
  ApplyContactReq, ReviewApplicationReq, GetApplicationsResp, apply_contact, review_application,
  get_applications,
}
use hermet.Api.Admin.{AddUserRequest, CreateGroupRequest, add_user, create_group}

-- `Data any` of a response, as far as the handlers fill it.
pub data Payload : Type 0 where
  tokens : TokenResp → Payload
  applications : List GetApplicationsResp → Payload
  nothing : Payload

abbrev map_payload : {D : Type 0} → (D → Payload) → Option D → Option Payload
map_payload f none = none
map_payload f (some d) = some (f d)

abbrev pub map_response : {D : Type 0} → (D → Payload) → Response D → Response Payload
map_response f (json c r) =
    json c (record { code = r.code; msg = r.msg; payload = map_payload f r.payload })
map_response f (error_json c e) = error_json c e
map_response f (abort c) = abort c

abbrev pub answer : {S D : Type 0} → (D → Payload) → Exec S (Response D) → Exec S (Response Payload)
answer f m = m >>= (λ r. return (map_response f r))

-- What gin binds of a request for each type that a handler asks for.
pub record Binding (B : Type 0) : Type 0 where
  pub sign_in_req : Http B → Option SignInReq
  pub refresh_token_request : Http B → Option RefreshTokenRequest
  pub apply_contact_req : Http B → Option ApplyContactReq
  pub review_application_req : Http B → Option ReviewApplicationReq
  pub add_user_request : Http B → Option AddUserRequest
  pub create_group_request : Http B → Option CreateGroupRequest

-- `ContactHandler` and `AdminHandler`; the channel's handler is made of its service.
pub record ContactHandler (S : Type 0) : Type 0 where
  pub user_svc : UserService S
  pub application_svc : ApplicationService S

pub record AdminHandler (S : Type 0) : Type 0 where
  pub user_service : UserService S

pub record ChannelHandler : Type 0 where
  pub svc : DefaultChannelService

abbrev pub with_body : {Req : Type 0} → Option ContextValue → Option Req → Context Req
with_body before bound = record { auth_user = before; bound = bound }

-- `SignOut` as `W` calls it: the goroutine is started by `go`, a parameter.
module _ {S : Type 0} (go : Exec S (Unit {0}) → Exec S (Unit {0})) where
  abbrev started : R TokenResp × Option (Exec S (Unit {0})) → Exec S (R TokenResp)
  started (r, none) = return r
  started (r, some g) = go g >>= (λ _. return r)

  unfoldable pub sign_out_here : AuthHandler S → Context (Unit {0}) → Exec S (R TokenResp)
  sign_out_here h ctx = started (sign_out h ctx.auth_user)

module _ {B S : Type 0} (bind : Binding B) (go : Exec S (Unit {0}) → Exec S (Unit {0})) where
  unfoldable pub auth_routes : AuthHandler S → List (Route B S Payload)
  auth_routes h =
      record {
        group = "api/v1/auth";
        method = "POST";
        relative = "/sign-in";
        handler =
            λ http before. answer tokens (b (sign_in h) (with_body before (bind.sign_in_req http)));
      }
      ∷ record {
        group = "api/v1/auth";
        method = "POST";
        relative = "/refresh-token";
        handler = λ http before.
            answer tokens
              (b (refresh_token h) (with_body before (bind.refresh_token_request http)));
      }
      ∷ record {
        group = "api/v1/auth";
        method = "POST";
        relative = "/sign-out";
        handler = λ http before. answer tokens (w (sign_out_here go h) (with_body before none));
      }
      ∷ []

  -- The first route of the contact handler.
  abbrev pub apply_route : ContactHandler S → Route B S Payload
  apply_route h = record {
    group = "api/v1/contact";
    method = "POST";
    relative = "/apply";
    handler = λ http before.
        answer applications
          (bu (apply_contact h.application_svc) (with_body before (bind.apply_contact_req http)));
  }

  unfoldable pub contact_routes : ContactHandler S → List (Route B S Payload)
  contact_routes h =
      apply_route h
      ∷ record {
        group = "api/v1/contact";
        method = "POST";
        relative = "/review";
        handler = λ http before. answer applications (
            bu (review_application h.application_svc)
              (with_body before (bind.review_application_req http)));
      }
      ∷ record {
        group = "api/v1/contact";
        method = "GET";
        relative = "/applications";
        handler = λ http before.
            answer applications
              (u {Req = Unit} (get_applications h.application_svc) (with_body before none));
      }
      ∷ []

  unfoldable pub admin_routes : AdminHandler S → List (Route B S Payload)
  admin_routes h =
      record {
        group = "api/v1/admin";
        method = "POST";
        relative = "/user";
        handler = λ http before.
            answer (λ _. nothing)
              (b (add_user h.user_service) (with_body before (bind.add_user_request http)));
      }
      ∷ []

  unfoldable pub channel_routes : ChannelHandler → List (Route B S Payload)
  channel_routes h =
      record {
        group = "api/v1/channel";
        method = "POST";
        relative = "/create-group";
        handler = λ http before.
            answer (λ _. nothing)
              (bu create_group (with_body before (bind.create_group_request http)));
      }
      ∷ []

  -- The registries of the program, in the order of module.go. The channel's handler is not one.
  abbrev pub registered_groups :
      AuthHandler S → ContactHandler S → AdminHandler S → List (List (Route B S Payload))
  registered_groups auth contact admin =
      auth_routes auth ∷ contact_routes contact ∷ admin_routes admin ∷ []

  module _ {E : Type 0} (gin : Gin B S Payload E) where
    unfoldable pub registries :
        AuthHandler S → ContactHandler S → AdminHandler S → List (RouteRegistry E)
    registries auth contact admin =
        map (λ rs. record { register = handle_all gin rs }) (registered_groups auth contact admin)
