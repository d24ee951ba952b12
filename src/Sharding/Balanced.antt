-- ===== src/Sharding/Balanced.antt =====
-- internal/pkg/sharding/balanced_sharding.go: a strategy whose broadcast is reordered.
pub mod Rounds
pub mod Groups
pub mod Order
pub mod Names
pub mod Even
use hermet.Base.{
  ℕ, zero, suc, ◌+◌, String, Bool, ◌||◌, Option, none, some, List, [], ◌∷◌, ◌++◌, ltb, same,
  if◌then◌else◌, length, get_elem?, set, errorf, Outcome, ok, err, panic, then_do,
}
use hermet.Sharding.{Dst, Shuffle, Strategy}

abbrev pub mode_default : String
mode_default = "default"

abbrev pub mode_round_robin : String
mode_round_robin = "round_robin"

abbrev pub mode_shuffle : String
mode_shuffle = "shuffle"

pub record BalancedSharding : Type 0 where
  pub base : Strategy
  pub mode : String

unfoldable pub new_balanced_sharding : Option Strategy → String → Outcome BalancedSharding
new_balanced_sharding none mode = err (errorf "base strategy cannot be nil" [])
new_balanced_sharding (some base) mode =
    if same mode mode_default || same mode mode_round_robin || same mode mode_shuffle
    then ok (record { base = base; mode = mode })
    else if same mode ""
    then ok (record { base = base; mode = mode_default })
    else err (errorf "invalid broadcast mode" [])

-- Go's `map[string][]Dst`.
abbrev pub Groups : Type 0
Groups = List (String × List Dst)

unfoldable pub lookup : String → Groups → Option (List Dst)
lookup k [] = none
lookup k ((j, v) ∷ m) = if same j k then some v else lookup k m

unfoldable pub insert : String → List Dst → Groups → Groups
insert k v [] = (k, v) ∷ []
insert k v ((j, w) ∷ m) = if same j k then (j, v) ∷ m else (j, w) ∷ insert k v m

-- `dbGroup[db]`: nil where the key is missing.
abbrev or_nil : Option (List Dst) → List Dst
or_nil none = []
or_nil (some l) = l

unfoldable pub group_of : Groups → String → List Dst
group_of m k = or_nil (lookup k m)

abbrev pub or_add : Option (List Dst) → List String → String → List String
or_add none dbs k = dbs ++ k ∷ []
or_add (some l) dbs k = dbs

-- The loop that groups the destinations by database.
unfoldable pub group_by_db : List Dst → List String → Groups → List String × Groups
group_by_db [] dbs m = (dbs, m)
group_by_db (d ∷ ds) dbs m =
    group_by_db ds (or_add (lookup d.db m) dbs d.db) (insert d.db (group_of m d.db ++ d ∷ []) m)

unfoldable pub max_tb_cnt : ℕ → Groups → ℕ
max_tb_cnt n [] = n
max_tb_cnt n ((k, tbs) ∷ m) = max_tb_cnt (if ltb n (length tbs) then length tbs else n) m

abbrev pub or_skip : Option Dst → List Dst → List Dst
or_skip none res = res
or_skip (some d) res = res ++ d ∷ []

-- One round: table `i` of every database that has so many.
unfoldable pub one_round : ℕ → List String → Groups → List Dst → List Dst
one_round i [] m res = res
one_round i (db ∷ dbs) m res = one_round i dbs m (or_skip (get_elem? (group_of m db) i) res)

unfoldable pub rounds : ℕ → ℕ → List String → Groups → List Dst → List Dst
rounds zero i dbs m res = res
rounds (suc n) i dbs m res = rounds n (i + 1) dbs m (one_round i dbs m res)

unfoldable pub round_robin_broadcast : List Dst → List Dst
round_robin_broadcast [] = []
round_robin_broadcast (d ∷ ds) =
    let (dbs, m) = group_by_db (d ∷ ds) [] [] in rounds (max_tb_cnt 0 m) 0 dbs m []

-- `res[i], res[j] = res[j], res[i]`: out of range is a panic.
abbrev swapped : ℕ → ℕ → Option Dst → Option Dst → List Dst → Outcome (List Dst)
swapped i j (some x) (some y) res = ok (set (set res i y) j x)
swapped i j _ _ res = panic

unfoldable pub swap : ℕ → ℕ → List Dst → Outcome (List Dst)
swap i j res = swapped i j (get_elem? res i) (get_elem? res j) res

unfoldable pub apply_swaps : List (ℕ × ℕ) → List Dst → Outcome (List Dst)
apply_swaps [] res = ok res
apply_swaps ((i, j) ∷ l) res = then_do (swap i j res) (apply_swaps l)

unfoldable pub shuffle_broadcast : Shuffle → List Dst → Outcome (List Dst)
shuffle_broadcast shuffle [] = ok []
shuffle_broadcast shuffle (d ∷ ds) = apply_swaps (shuffle (length (d ∷ ds))) (d ∷ ds)

unfoldable pub broadcast : BalancedSharding → Shuffle → Outcome (List Dst)
broadcast s shuffle = then_do (s.base.broadcast shuffle) (λ dsts.
    if same s.mode mode_round_robin
    then ok (round_robin_broadcast dsts)
    else if same s.mode mode_shuffle
    then shuffle_broadcast shuffle dsts
    else ok dsts)

-- The other methods are the base's.
unfoldable pub as_strategy : BalancedSharding → Strategy
as_strategy s = record {
  shard = s.base.shard;
  dst_from_id = s.base.dst_from_id;
  dst_from_shard_val = s.base.dst_from_shard_val;
  broadcast = broadcast s;
}
