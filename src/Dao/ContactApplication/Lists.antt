-- ===== src/Dao/ContactApplication/Lists.antt =====
-- contact_application_dao.go: a pending application that was saved is listed for its target.
use mathlib.Core.List.{Perm, perm_middle, append-nil}
use mathlib.Core.List.Perm
use hermet.Base.{
  subst, ℕ, true, some, ◌≡◌, refl, sym, ap, ◌∙◌, List, [], ◌∷◌, ◌++◌, select, select-last, ok,
  >>=-eq-ok, arith,
}
use hermet.Sharding.{Dst}
use hermet.Sharding.Sharder.{single_id, shard_val}
use hermet.Sharding.Helper.{next_id_and_shard}
use hermet.Sharding.Helper.Consistency.{next_id_and_shard-Parts}
use hermet.Domain.{status_pending}
use hermet.Dao.Entities.{ContactApplication}
use hermet.Dao.Gorm.{Db, Sharded, Reliable}
use hermet.Dao.Calls.{with_db-eq-ok, dst_from_sharder-eq}
use hermet.Dao.ContactApplication.{is_pending_for, put, save, list_pending_by_target_id}

-- The row that `Save` writes for an entity.
abbrev pub stored : ContactApplication → ℕ → ℕ → ContactApplication
stored ca id at = record ca { id = id; created_at = at; updated_at = at }

last_first : (x : ContactApplication) (xs : List ContactApplication) → Perm (xs ++ x ∷ []) (x ∷ xs)
last_first x xs = subst (λ l. Perm (xs ++ x ∷ []) (x ∷ l)) (append-nil xs) (perm_middle xs [])

-- What a call of `Save` that returned did.
pub record Saved {S : Type 0} (d : Sharded S ContactApplication) (ca row : ContactApplication)
    (s' : S) : Type 0 where
  pub id : ℕ
  pub dst : Dst
  pub v : ℕ
  pub at : ℕ
  pub db : Db
  pub before : S
  pub value : shard_val d.sum64 (single_id ca.target_id) ≡ ok v
  pub target : d.shard_helper.strategy.shard v ≡ ok dst
  pub loaded : d.dbs dst.db ≡ some db
  pub created : d.gorm.create db dst.tb (stored ca id at) before ≡ (ok row, s')

module _ {S : Type 0} (d : Sharded S ContactApplication) where
  pub save-Saved :
      (ca row : ContactApplication) (s s' : S) → save d ca s ≡ (ok row, s') → Saved d ca row s'
  unfolding save put
  save-Saved ca row s s' e =
      let ((id, dst), s₁, e₁, h₁) =
        >>=-eq-ok (next_id_and_shard d.sum64 d.shard_helper (single_id ca.target_id)) _ s e in
      let (at, s₂, e₂, h₂) = >>=-eq-ok d.now _ s₁ h₁ in
      let (db, e₃, h₃) = with_db-eq-ok (d.dbs dst.db) _ _ s₂ h₂ in
      let p =
        next_id_and_shard-Parts d.sum64 d.shard_helper (single_id ca.target_id) s s₁ id dst e₁ in
      record {
        id = id;
        dst = dst;
        v = p.v;
        at = at;
        db = db;
        before = s₂;
        value = p.value;
        target = p.target;
        loaded = e₃;
        created = h₃;
      }

  passes :
      (ca : ContactApplication) (id at : ℕ)
      → ca.application_status ≡ status_pending
      → is_pending_for ca.target_id (stored ca id at) ≡ true
  passes ca id at h = rw h (ground arith)

  module _
      (coherent : (n : ℕ)
        → d.shard_helper.strategy.shard n ≡ d.shard_helper.strategy.dst_from_shard_val n)
      (rel : Reliable d.gorm) where
    -- The query goes to the table that the row was put in.
    list-find :
        (ca row : ContactApplication) (s' : S) (x : Saved d ca row s')
        → list_pending_by_target_id d ca.target_id s'
          ≡ d.gorm.find x.db x.dst.tb (is_pending_for ca.target_id) s'
    unfolding list_pending_by_target_id
    list-find ca row s' x =
        rw
          (dst_from_sharder-eq d.sum64 d.shard_helper (single_id ca.target_id) s' coherent x.value
            x.target)
          (rw x.loaded refl)

    -- With a strategy that finds a shard value where it puts it, and a database that does what
    -- gorm documents: after a call of `Save` that returned, for a pending application, the list of
    -- pending applications of the target holds, in some order, the row that was saved and the
    -- rows that were pending before.
    pub list_pending-save :
        (ca row : ContactApplication) (l : List ContactApplication) (s s' s'' : S)
        → ca.application_status ≡ status_pending
        → save d ca s ≡ (ok row, s')
        → list_pending_by_target_id d ca.target_id s' ≡ (ok l, s'')
        → (id : ℕ) × (at : ℕ) × (before : List ContactApplication) × (row ≡ stored ca id at)
          × Perm l (row ∷ before)
    list_pending-save ca row l s s' s'' pending_status e f =
        let x = save-Saved ca row s s' e in
        let m =
          rel.find_finds x.db x.dst.tb (is_pending_for ca.target_id) l s' s''
            (sym (list-find ca row s' x) ∙ f) in
        let a = rel.create_adds _ _ _ row x.before s' x.created in
        let before = select (is_pending_for ca.target_id) (rel.rows x.before x.db x.dst.tb) in
        let with_row : select (is_pending_for ca.target_id) (rel.rows s' x.db x.dst.tb)
            ≡ before ++ row ∷ [] =
          ap (select (is_pending_for ca.target_id)) a.1
          ∙ select-last (is_pending_for ca.target_id) (rel.rows x.before x.db x.dst.tb)
              (stored ca x.id x.at) (passes ca x.id x.at pending_status)
          ∙ ap (λ r. before ++ r ∷ []) (sym a.0) in
        (
          x.id,
          x.at,
          before,
          a.0,
          Perm.trans (subst (λ k. Perm l k) with_row m.0) (last_first row before),
        )
