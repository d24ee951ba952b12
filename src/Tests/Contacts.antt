-- ===== src/Tests/Contacts.antt =====
-- Users and applications for contacts (internal/repo/dao, internal/service, internal/api) over a
-- database in memory.
use hermet.Base.{
  ◌%◌, ◌*◌, ℕ, ◌+◌, ◌≡◌, ◌≢◌, refl, String, Option, some, List, [], ◌∷◌, ◌++◌, sentinel,
  record_not_found, gorm_record_not_found, ok, err, Exec, return, fail, arith,
}
use hermet.Base.Decimal
use hermet.Snowflake.{extract_shard_val}
use hermet.Sharding.Sharder.{Hash, shard_val, bytes}
use hermet.Snowflake.Layout.{extract_mod}
use hermet.Sharding.Modulo
use hermet.Sharding.Modulo.{ModuloSharding}
use hermet.Sharding.Modulo.Routing.{dst_from_id-eq-shard}
use hermet.Sharding.Balanced
use hermet.Sharding.Helper
use hermet.Sharding.Helper.{ShardHelper, next_id_and_shard}
use hermet.Domain
use hermet.Domain.{source_is_valid, status_pending, zero_biz_user, zero_user_contact}
use hermet.Domain.Events.{ContactApplicantEvent}
use hermet.Dao.Entities
use hermet.Dao.Gorm.{Db, Sharded}
use hermet.Dao.BizUser
use hermet.Dao.BizUser.Finds.{find_by_email-save, find_by_id-save}
use hermet.Dao.ContactApplication
use hermet.Dao.ContactApplication.Lists.{stored}
use hermet.Repo.Convert.{user_to_entity, application_to_entity, application_to_domain}
use hermet.Repo.Repos.{
  BizUserRepo, UserContactRepo, ContactApplicationRepo, ChannelApplicationRepo,
  default_contact_application_repo, save_application, list_pending,
}
use hermet.Web.{ContextUser}
use hermet.Service.Application
use hermet.Service.Application.{
  DefaultApplicationService, ApplicationService, application_for, submit, unless_contact,
}
use hermet.Service.Application.Outcomes.{Applied, apply_contact-Applied}
use hermet.Service.Application.Listed.{Holds, over_dao, get_contact_applications-apply_contact}
use hermet.Api.Contact.{ApplyContactReq}
use hermet.Providers.Shards.{ShardingConfig, configured, configured-coherent}
use hermet.Tests.Store.{State, in_memory, in_memory-Reliable}

abbrev pub table_config : ShardingConfig
table_config = record {
  db_prefix = "hermet";
  tb_prefix = "rows";
  db_shard_count = 2;
  tb_shard_count = 4;
}

abbrev sum_lengths : Hash
sum_lengths [] = 0
sum_lengths (x ∷ l) = sum_lengths l + 1

abbrev two_dbs : String → Option Db
two_dbs name = some 1

module _ {X : Type 0} where
  abbrev pub counter : ℕ → Exec (State X) ℕ
  counter v (n, rows) = (ok n, (n + 1, rows))

  abbrev clock : Exec (State X) ℕ
  clock s = (ok 1000, s)

  abbrev pub sharded : Sharded (State X) X
  sharded = record {
    dbs = two_dbs;
    shard_helper = configured counter extract_shard_val table_config;
    gorm = in_memory;
    now = clock;
    sum64 = sum_lengths;
  }

  abbrev pub empty : State X
  empty = (7, λ db tb. [])

abbrev ann : Entities.BizUser
ann = user_to_entity (record zero_biz_user { email = "ann@hermet.io"; nickname = "Ann" })

find_by_email-save_example :
    BizUser.find_by_email sharded ann.email (BizUser.save sharded ann empty).1
    ≢ (err (sentinel gorm_record_not_found), empty)
unfolding BizUser.save BizUser.put next_id_and_shard shard_val bytes Modulo.as_strategy
    Balanced.as_strategy Modulo.shard user_to_entity
find_by_email-save_example =
    find_by_email-save sharded
      (configured-coherent (counter {X = Entities.BizUser}) extract_shard_val table_config)
      in_memory-Reliable ann (record ann { id = 7; created_at = 1000; updated_at = 1000 }) empty
      (BizUser.save sharded ann empty).1 empty refl refl

abbrev pub event : ContactApplicantEvent
event = record { applicant_id = 3; target_id = 5; message = "hi"; source = "search" }

abbrev pub ann_user : Domain.BizUser
ann_user = record zero_biz_user { id = 3; nickname = "Ann" }

abbrev pub pending_entity : Entities.ContactApplication
pending_entity = application_to_entity (application_for event ann_user)

-- The list after one application was saved.
abbrev Listing : Type 0
Listing =
    (id : ℕ) × (at : ℕ) × (before : List Entities.ContactApplication) × (stored pending_entity 7
        1000
      ≡ stored pending_entity id at)
    × (stored pending_entity 7 1000 ∷ [] ≡ before ++ stored pending_entity 7 1000 ∷ [])

-- Repositories that know Ann and no contact, and one that knows a contact.
abbrev pub W : Type 0
W = State Entities.ContactApplication

abbrev knows_ann : BizUserRepo W
knows_ann = record {
  save = λ u. return u;
  find_by_id = λ id. return ann_user;
  find_by_email = λ email. return ann_user;
}

abbrev pub no_contacts : UserContactRepo W
no_contacts = record { find_by_user_id_and_contact_id = λ a b. fail (sentinel record_not_found) }

abbrev pub one_contact : UserContactRepo W
one_contact = record {
  find_by_user_id_and_contact_id = λ a b. return (record zero_user_contact { id = 1 });
}

abbrev nothing_saved : ContactApplicationRepo W
nothing_saved = record {
  save = λ a. return a;
  update_status = λ id status. return tt;
  list_pending_by_target_id = λ id. return [];
}

abbrev pub no_channels : ChannelApplicationRepo W
no_channels = record { save = λ a. return a }

abbrev pub service : UserContactRepo W → DefaultApplicationService W
service contacts = record {
  biz_user_repo = knows_ann;
  user_contact_repo = contacts;
  contact_application_repo = nothing_saved;
  channel_application_repo = no_channels;
}

abbrev pub start : W
start = empty

apply_contact-Applied_example : Applied (service no_contacts) event start start
unfolding Application.apply_contact submit unless_contact
apply_contact-Applied_example = apply_contact-Applied (service no_contacts) event start start refl

abbrev pub wired : DefaultApplicationService W
wired = over_dao (service no_contacts) sharded

abbrev pub applied : W
applied = (Application.apply_contact wired event start).1

get_contact_applications-apply_contact_example :
    Holds (service no_contacts) event (application_to_domain (stored pending_entity 7 1000) ∷ [])
unfolding Application.apply_contact submit unless_contact Application.get_contact_applications
    default_contact_application_repo save_application list_pending
    ContactApplication.contact_application_dao ContactApplication.save ContactApplication.put
    ContactApplication.list_pending_by_target_id next_id_and_shard shard_val Modulo.as_strategy
    Balanced.as_strategy Modulo.shard application_to_entity application_to_domain application_for
    Helper.dst_from_sharder Modulo.dst_from_shard_val Modulo.dst_at Decimal.suffixed
get_contact_applications-apply_contact_example =
    get_contact_applications-apply_contact (service no_contacts) sharded
      (configured-coherent (counter {X = Entities.ContactApplication}) extract_shard_val
        table_config)
      in_memory-Reliable event (application_to_domain (stored pending_entity 7 1000) ∷ []) start
      applied applied refl refl

abbrev caller : ContextUser
caller = record { bid = 0; uid = 3; sid = "s" }

abbrev accepts : ApplicationService W
accepts = record {
  apply_contact = λ e. return tt;
  review_contact_application = λ e. return tt;
  get_contact_applications = λ id. return [];
}

abbrev pub request : ApplyContactReq
request = record { contact_id = 5; message = "hi"; source = "search" }

-- Ids that keep the shard value, and a database in memory behind them.
abbrev keeping : ℕ → Exec (State Entities.BizUser) ℕ
keeping v (n, rows) = (ok ((v % 1024) * 4096 + n % 4096), (n + 1, rows))

abbrev table_sharding : ModuloSharding
table_sharding = record {
  extractor = extract_shard_val;
  db_prefix = "hermet";
  tb_prefix = "rows";
  db_shard_count = 2;
  tb_shard_count = 4;
}

kept :
    (v id : ℕ) (m m' : State Entities.BizUser)
    → keeping v m ≡ (ok id, m')
    → extract_shard_val id ≡ v % 1024
kept v id m m' h =
    let e : (v % 1024) * 4096 + m.0 % 4096 ≡ id = cc in omega (arith, e, extract_mod id)

abbrev by_kept_ids : Sharded (State Entities.BizUser) Entities.BizUser
by_kept_ids = record {
  dbs = two_dbs;
  shard_helper = configured keeping extract_shard_val table_config;
  gorm = in_memory;
  now = clock;
  sum64 = sum_lengths;
}

leads_back :
    (v id : ℕ) (m m' : State Entities.BizUser)
    → keeping v m ≡ (ok id, m')
    → by_kept_ids.shard_helper.strategy.dst_from_id id ≡ by_kept_ids.shard_helper.strategy.shard v
unfolding Modulo.as_strategy Balanced.as_strategy
leads_back v id m m' h =
    dst_from_id-eq-shard table_sharding
      (record { dbs = omega arith; tbs = omega arith; product = omega arith }) (omega arith) v id
      (kept v id m m' h)

abbrev saved_ann : Entities.BizUser
saved_ann = record ann { id = 53255; created_at = 1000; updated_at = 1000 }

find_by_id-save_example :
    BizUser.find_by_id by_kept_ids saved_ann.id (BizUser.save by_kept_ids ann empty).1
    ≢ (err (sentinel gorm_record_not_found), empty)
unfolding BizUser.save BizUser.put next_id_and_shard shard_val bytes Modulo.as_strategy
    Balanced.as_strategy Modulo.shard user_to_entity
find_by_id-save_example =
    find_by_id-save by_kept_ids leads_back in_memory-Reliable ann saved_ann empty
      (BizUser.save by_kept_ids ann empty).1 empty refl refl
