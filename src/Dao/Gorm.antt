-- ===== src/Dao/Gorm.antt =====
-- gorm and the map of databases, which are not part of the repository: what the data access objects
-- call, and what they rely on.
use mathlib.Core.List.{Perm}
use hermet.Base.{
  ℕ, ◌≡◌, String, Bool, Option, none, some, List, [], ◌∷◌, ◌++◌, select, errorf, sentinel,
  gorm_record_not_found, ok, err, Exec, fail,
}
use hermet.Sharding.Sharder.{Hash}
use hermet.Sharding.Helper.{ShardHelper}

-- A `*gorm.DB`.
abbrev pub Db : Type 0
Db = ℕ

-- Calls on `db.Table(tb).Model(&R{})`, with `Where` conditions as a test on rows.
pub record Gorm (S R : Type 0) : Type 0 where
  pub create : Db → String → R → Exec S R
  pub first : Db → String → (R → Bool) → Exec S R
  pub find : Db → String → (R → Bool) → Exec S (List R)
  pub update : Db → String → (R → Bool) → (R → R) → Exec S (Unit {0})

-- What a data access object holds, and the clock `time.Now().UnixMilli()`.
pub record Sharded (S R : Type 0) : Type 0 where
  pub dbs : String → Option Db
  pub shard_helper : ShardHelper S
  pub gorm : Gorm S R
  pub now : Exec S ℕ
  pub sum64 : Hash

-- `db, ok := d.dbs.Load(name); if !ok { return … }`
abbrev pub with_db {ℓ} : {S : Type 0} {A : Type ℓ} → Option Db → String → (Db → Exec S A) → Exec S A
with_db none name k = fail (errorf "failed to load database [ %s ]" (name ∷ []))
with_db (some db) name k = k db

-- What gorm and the database document, of the rows that a table holds. `Create` adds the row and
-- gives it back; a query changes nothing; `First` answers with a row that meets the conditions and
-- says `ErrRecordNotFound` only where there is none; `Find` answers with all of them, in some order;
-- an update changes the rows that meet the conditions.
pub record Reliable {S R : Type 0} (g : Gorm S R) : Type 1 where
  pub rows : S → Db → String → List R
  pub create_adds :
      (db : Db) (tb : String) (r r' : R) (s s' : S)
      → g.create db tb r s ≡ (ok r', s')
      → (r' ≡ r) × (rows s' db tb ≡ rows s db tb ++ r ∷ [])
  pub first_finds :
      (db : Db) (tb : String) (p : R → Bool) (r : R) (s s' : S)
      → g.first db tb p s ≡ (ok r, s')
      → (before after : List R) × (select p (rows s db tb) ≡ before ++ r ∷ after) × (s' ≡ s)
  pub first_misses :
      (db : Db) (tb : String) (p : R → Bool) (s s' : S)
      → g.first db tb p s ≡ (err (sentinel gorm_record_not_found), s')
      → (select p (rows s db tb) ≡ []) × (s' ≡ s)
  pub find_finds :
      (db : Db) (tb : String) (p : R → Bool) (l : List R) (s s' : S)
      → g.find db tb p s ≡ (ok l, s')
      → Perm l (select p (rows s db tb)) × (s' ≡ s)
