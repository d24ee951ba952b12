-- ===== src/Dao/Calls.antt =====
-- The data access objects' ways to a table: what a call that returned went through.
use hermet.Base.{ℕ, ◌≡◌, refl, sym, String, Option, none, some, ok, Exec}
use hermet.Sharding.{Dst}
use hermet.Sharding.Sharder.{Hash, Sharder, shard_val}
use hermet.Sharding.Helper.{ShardHelper, dst_from_sharder}
use hermet.Dao.Gorm.{Db, with_db}

-- A call on a database that returned had one to work on.
pub with_db-eq-ok :
    {S A : Type 0} (o : Option Db) (name : String) (k : Db → Exec S A) (s : S) {a : A} {s' : S}
    → with_db o name k s ≡ (ok a, s')
    → (db : Db) × (o ≡ some db) × (k db s ≡ (ok a, s'))
with_db-eq-ok none name k s h = cc
with_db-eq-ok (some db) name k s h = (db, refl, h)

-- `DstFromSharder` finds what `Shard` found, from the same sharder.
pub dst_from_sharder-eq :
    {S : Type 0} (sum64 : Hash) (h : ShardHelper S) (x : Sharder) (s : S) {v : ℕ} {dst : Dst}
    → ((n : ℕ) → h.strategy.shard n ≡ h.strategy.dst_from_shard_val n)
    → shard_val sum64 x ≡ ok v
    → h.strategy.shard v ≡ ok dst
    → dst_from_sharder sum64 h x s ≡ (ok dst, s)
unfolding dst_from_sharder
dst_from_sharder-eq sum64 h x s {v} coherent e₁ e₂ = rw e₁ (rw (sym (coherent v)) (rw e₂ refl))
