-- ===== src/Dao/BizUser/Finds.antt =====
-- biz_user_dao.go: a user that was saved is found by the email and by the id.
use hermet.Base.{
  arith, true, ℕ, ◌≡◌, ◌≢◌, refl, sym, ap, ◌∙◌, some, select, select-last, append_one_ne_nil, ok,
  err, sentinel, gorm_record_not_found, >>=-eq-ok, check-eq-ok, same_refl,
}
use hermet.Sharding.{Dst}
use hermet.Sharding.Sharder.{text, shard_val}
use hermet.Sharding.Helper.{dst_from_id, next_id_and_shard}
use hermet.Sharding.Helper.Consistency.{next_id_and_shard-Parts}
use hermet.Dao.Entities.{BizUser}
use hermet.Dao.Gorm.{Db, Sharded, Reliable}
use hermet.Dao.Calls.{with_db-eq-ok, dst_from_sharder-eq}
use hermet.Dao.BizUser.{has_id, find_by_id, has_email, put, save, find_by_email}

-- What a call of `Save` that returned did.
pub record Saved {S : Type 0} (d : Sharded S BizUser) (user row : BizUser) (s' : S) : Type 0 where
  pub id : ℕ
  pub dst : Dst
  pub v : ℕ
  pub at : ℕ
  pub db : Db
  pub before : S
  pub m : S
  pub m' : S
  pub made : d.shard_helper.gen v m ≡ (ok id, m')
  pub value : shard_val d.sum64 (text user.email) ≡ ok v
  pub target : d.shard_helper.strategy.shard v ≡ ok dst
  pub loaded : d.dbs dst.db ≡ some db
  pub created :
      d.gorm.create db dst.tb (record user { id = id; created_at = at; updated_at = at }) before
      ≡ (ok row, s')

module _ {S : Type 0} (d : Sharded S BizUser) where
  pub save-Saved :
      (user row : BizUser) (s s' : S) → save d user s ≡ (ok row, s') → Saved d user row s'
  unfolding save put
  save-Saved user row s s' e =
      let ((id, dst), s₁, e₁, h₁) =
        check-eq-ok (next_id_and_shard d.sum64 d.shard_helper (text user.email)) _ _ s (λ _ _ k. cc)
          e in
      let (at, s₂, e₂, h₂) = >>=-eq-ok d.now _ s₁ h₁ in
      let (db, e₃, h₃) = with_db-eq-ok (d.dbs dst.db) _ _ s₂ h₂ in
      let p = next_id_and_shard-Parts d.sum64 d.shard_helper (text user.email) s s₁ id dst e₁ in
      record {
        id = id;
        dst = dst;
        v = p.v;
        at = at;
        db = db;
        before = s₂;
        m = s;
        m' = s₁;
        made = p.made;
        value = p.value;
        target = p.target;
        loaded = e₃;
        created = h₃;
      }

  module _
      (coherent : (n : ℕ)
        → d.shard_helper.strategy.shard n ≡ d.shard_helper.strategy.dst_from_shard_val n)
      (rel : Reliable d.gorm) where
    -- The query goes to the table that the row was put in.
    find_by_email-first :
        (user row : BizUser) (s' : S) (x : Saved d user row s')
        → find_by_email d user.email s' ≡ d.gorm.first x.db x.dst.tb (has_email user.email) s'
    unfolding find_by_email
    find_by_email-first user row s' x =
        rw
          (dst_from_sharder-eq d.sum64 d.shard_helper (text user.email) s' coherent x.value
            x.target)
          (rw x.loaded refl)

    -- With a strategy that finds a shard value where it puts it, and a database that does what
    -- gorm documents: after a call of `Save` that returned, for a user that is not marked as
    -- deleted, `FindByEmail` never answers that there is no record for the email.
    pub find_by_email-save :
        (user row : BizUser) (s s' s'' : S)
        → user.deleted_at ≡ 0
        → save d user s ≡ (ok row, s')
        → find_by_email d user.email s' ≢ (err (sentinel gorm_record_not_found), s'')
    find_by_email-save user row s s' s'' alive e f =
        let x = save-Saved user row s s' e in
        let m =
          rel.first_misses x.db x.dst.tb (has_email user.email) s' s''
            (sym (find_by_email-first user row s' x) ∙ f) in
        let a = rel.create_adds _ _ _ row x.before s' x.created in
        append_one_ne_nil _ _ (
          sym (
            select-last (has_email user.email) (rel.rows x.before x.db x.dst.tb) _
              (rw (same_refl user.email, alive) refl))
          ∙ ap (select (has_email user.email)) (sym a.1)
          ∙ m.0)

  module _
      (by_id : (v id : ℕ) (m m' : S)
        → d.shard_helper.gen v m ≡ (ok id, m')
        → d.shard_helper.strategy.dst_from_id id ≡ d.shard_helper.strategy.shard v)
      (rel : Reliable d.gorm) where
    find_by_id-first :
        (user row : BizUser) (s' : S) (x : Saved d user row s')
        → find_by_id d x.id s' ≡ d.gorm.first x.db x.dst.tb (has_id x.id) s'
    unfolding find_by_id dst_from_id
    find_by_id-first user row s' x =
        rw (by_id x.v x.id x.m x.m' x.made ∙ x.target) (rw x.loaded refl)

    has_id-stored :
        (user : BizUser) (id at : ℕ)
        → user.deleted_at ≡ 0
        → has_id id (record user { id = id; created_at = at; updated_at = at }) ≡ true
    has_id-stored user id at alive = rw alive (ground arith)

    -- With a database that does what gorm documents and ids that lead to the table that their
    -- shard value is sent to (as the snowflake ids do where the number of shards divides 1024):
    -- after a call of `Save` that returned, for a user that is not marked as deleted, `FindByID`
    -- never answers that there is no record for the id of the saved row.
    pub find_by_id-save :
        (user row : BizUser) (s s' s'' : S)
        → user.deleted_at ≡ 0
        → save d user s ≡ (ok row, s')
        → find_by_id d row.id s' ≢ (err (sentinel gorm_record_not_found), s'')
    find_by_id-save user row s s' s'' alive e f =
        let x = save-Saved user row s s' e in
        let a = rel.create_adds _ _ _ row x.before s' x.created in
        let m =
          rel.first_misses x.db x.dst.tb (has_id x.id) s' s''
            (sym (find_by_id-first user row s' x) ∙ ap (λ r. find_by_id d r.id s') (sym a.0) ∙ f) in
        append_one_ne_nil _ _ (
          sym (
            select-last (has_id x.id) (rel.rows x.before x.db x.dst.tb) _
              (has_id-stored user x.id x.at alive))
          ∙ ap (select (has_id x.id)) (sym a.1)
          ∙ m.0)
