-- ===== src/Tests/Requests.antt =====
-- Requests to the whole program (internal/app) over an engine and a database in memory, and the
-- start of the program (cmd/main.go).
use hermet.Base.{
  ◌≡◌, refl, ◌∙◌, same, if◌then◌else◌, none, some, List, [], ◌∷◌, errorf, ok, Exec, return, fail,
}
use hermet.Repo.Convert.{application_to_entity, application_to_domain}
use hermet.Dao.ContactApplication
use hermet.Service.User.{UserService}
use hermet.Service.Application
use hermet.Service.Application.{
  application_for, submit, unless_contact, default_application_service,
}
use hermet.Base.Decimal
use hermet.Sharding.Sharder.{shard_val}
use hermet.Sharding.Modulo
use hermet.Sharding.Balanced
use hermet.Sharding.Helper
use hermet.Sharding.Helper.{next_id_and_shard}
use hermet.Domain.{source_is_valid}
use hermet.Repo.Repos.{default_contact_application_repo, save_application, list_pending}
use hermet.Api.Contact
use hermet.Web.{bu, write_res, extract_auth_user, json}
use hermet.Web.Jwt.{build, strip, JwtPayload, Manager, JwtBuilder, trim_prefix}
use hermet.Web.Jwt.Passes.{user_in}
use hermet.Web.Session.{SessionHandler}
use hermet.Web.Engine.{Http, HandlerFuncBuilder, Route}
use hermet.Service.Auth.{AuthService}
use hermet.Api.Auth.{AuthHandler}
use hermet.Api.Contact.{event_for, plain_ok}
use hermet.Api.Routes.{Payload, Binding, ContactHandler, AdminHandler}
use hermet.App.{WebConfig, NetHttp, Fx}
use hermet.App.Wiring.{Wired, init_app-Wired}
use hermet.App.Guarded.{jwt_middleware}
use hermet.App.Applications.{registered_groups-Fresh, contact_in, groups_in, finds_apply}
use hermet.Tests.Engine.{Table, in_memory, in_memory-Documented, fresh_engine}
use hermet.Tests.Contacts.{W, sharded, service, no_contacts, start, request, applied}

abbrev pub token_of_ann : JwtPayload
token_of_ann = record { biz_id = 0; user_id = 3; session_id = "s" }

abbrev pub ann_manager : Manager W
ann_manager = record {
  encrypt = λ p. return "t";
  decrypt = λ t. if same t "t" then return token_of_ann else fail (errorf "bad token" []);
}

abbrev open_sessions : SessionHandler W
open_sessions = record {
  create_session = λ sid uid. return tt;
  check_session = λ sid uid. return tt;
  refresh_session = λ sid. return tt;
  clear_session = λ sid. return tt;
}

abbrev jwt : JwtBuilder W
jwt = record {
  handler = open_sessions;
  at_manager = ann_manager;
  ignores = some (λ path. same path "/api/v1/auth/sign-in");
}

abbrev auth_svc : AuthService W
auth_svc = record {
  sign_in = λ a b c. return (user_in token_of_ann);
  generate_token = λ au. return ("t", "t");
  verify_refresh_token = λ t. return (user_in token_of_ann);
}

abbrev users : UserService W
users = record { add_user = λ u. return tt }

abbrev auth : AuthHandler W
auth = record { session = open_sessions; svc = auth_svc }

abbrev admin : AdminHandler W
admin = record { user_service = users }

abbrev pub bind : Binding (Unit {0})
bind = record {
  sign_in_req = λ h. none;
  refresh_token_request = λ h. none;
  apply_contact_req = λ h. some request;
  review_application_req = λ h. none;
  add_user_request = λ h. none;
  create_group_request = λ h. none;
}

abbrev pub at_once : Exec W (Unit {0}) → Exec W (Unit {0})
at_once m = m

abbrev pub http_server : NetHttp W
http_server = record { listen_and_serve = λ svr. return tt; shutdown = λ svr. return tt }

abbrev pub cfg : WebConfig
cfg = record {
  addr = ":8080";
  read_header_timeout = 5;
  read_timeout = 15;
  write_timeout = 90;
  idle_timeout = 120;
}

abbrev fx : Fx (Table (Unit {0}) W Payload) W
fx = record { engine = fresh_engine; hooks = [] }

abbrev pub http : Http (Unit {0})
http = record {
  method = "POST";
  path = "/api/v1/contact/apply";
  access_token = "Bearer t";
  raw = tt;
}

abbrev groups : List (List (Route (Unit {0}) W Payload))
groups =
    groups_in in_memory in_memory-Documented http_server bind at_once auth users
      (service no_contacts) sharded admin jwt [] []

abbrev contacts : ContactHandler W
contacts =
    contact_in in_memory in_memory-Documented http_server bind at_once auth users
      (service no_contacts) sharded admin jwt [] []

abbrev builders : List (HandlerFuncBuilder (Unit {0}) W Payload)
builders = record { build = jwt_middleware jwt } ∷ []

program : Wired in_memory in_memory-Documented http_server at_once cfg builders groups fx
program =
    init_app-Wired in_memory in_memory-Documented http_server at_once cfg builders groups fx
      (registered_groups-Fresh bind at_once auth contacts admin) (λ m p r e. refl)

init_app-Wired_example : Wired in_memory in_memory-Documented http_server at_once cfg [] groups fx
init_app-Wired_example =
    init_app-Wired in_memory in_memory-Documented http_server at_once cfg [] groups fx
      (registered_groups-Fresh bind at_once auth contacts admin) (λ m p r e. refl)

-- The request is answered, and the application is in the table.
answered :
    in_memory.serve program.engine http none start
    ≡ (ok (json 200 (record { code = 200; msg = ""; payload = none })), applied)
unfolding Application.apply_contact submit unless_contact default_application_service bu write_res
    extract_auth_user Contact.apply_contact source_is_valid event_for build trim_prefix strip
    default_contact_application_repo save_application list_pending
    ContactApplication.contact_application_dao ContactApplication.save ContactApplication.put
    ContactApplication.list_pending_by_target_id next_id_and_shard shard_val Modulo.as_strategy
    Balanced.as_strategy Modulo.shard application_to_entity application_to_domain application_for
    Helper.dst_from_sharder Modulo.dst_from_shard_val Modulo.dst_at Decimal.suffixed
answered =
    (λ i.
      in_memory-Documented.serves program.engine http _
        (finds_apply in_memory in_memory-Documented http_server bind at_once auth users
          (service no_contacts) sharded admin jwt [] [] cfg fx program)
        i none start)
    ∙ refl
