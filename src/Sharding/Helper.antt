-- ===== src/Sharding/Helper.antt =====
-- internal/pkg/sharding/helper.go and idgen/types.go: an id generator joined with a strategy.
pub mod Consistency
use hermet.Base.{
  ℕ, String, Option, none, some, List, [], errorf, Outcome, ok, err, Exec, return, lift, ◌>>=◌,
}
use hermet.Sharding.{Dst, Shuffle, Strategy}
use hermet.Sharding.Sharder.{Hash, Sharder, shard_val}

-- `idgen.Generator`: a generator of ids that works on a state `S`.
abbrev pub IdGenerator : Type 0 → Type 0
IdGenerator S = ℕ → Exec S ℕ

pub record ShardHelper (S : Type 0) : Type 0 where
  pub gen : IdGenerator S
  pub strategy : Strategy

module _ {S : Type 0} where
  -- A nil interface is `none`.
  unfoldable pub new_shard_helper :
      Option (IdGenerator S) → Option Strategy → Outcome (ShardHelper S)
  new_shard_helper none strategy = err (errorf "generator cannot be nil" [])
  new_shard_helper (some gen) none = err (errorf "strategy cannot be nil" [])
  new_shard_helper (some gen) (some strategy) = ok (record { gen = gen; strategy = strategy })

  module _ (sum64 : Hash) (h : ShardHelper S) where
    unfoldable pub next_id_and_shard : Sharder → Exec S (ℕ × Dst)
    next_id_and_shard sharder = do
      v ← lift (shard_val sum64 sharder)
      id ← h.gen v
      dst ← lift (h.strategy.shard v)
      return (id, dst)

    unfoldable pub next_id : Sharder → Exec S ℕ
    next_id sharder = do v ← lift (shard_val sum64 sharder); h.gen v

    unfoldable pub shard : Sharder → Exec S Dst
    shard sharder = do v ← lift (shard_val sum64 sharder); lift (h.strategy.shard v)

    unfoldable pub dst_from_sharder : Sharder → Exec S Dst
    dst_from_sharder sharder = do
      v ← lift (shard_val sum64 sharder)
      lift (h.strategy.dst_from_shard_val v)

  unfoldable pub dst_from_id : ShardHelper S → ℕ → Exec S Dst
  dst_from_id h id = lift (h.strategy.dst_from_id id)

  unfoldable pub broadcast : ShardHelper S → Shuffle → Outcome (List Dst)
  broadcast h shuffle = h.strategy.broadcast shuffle
