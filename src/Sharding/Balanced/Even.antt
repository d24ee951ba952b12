-- ===== src/Sharding/Balanced/Even.antt =====
-- balanced_sharding.go over modulo_sharding.go: the order of a round robin broadcast.
use mathlib.Core.List.{append-nil, append_assoc}
use native.Mathlib.Nat.{mod-eq_of_lt}
use hermet.Base.{
  ℕ, zero, suc, ◌+◌, ◌*◌, ◌-◌, ◌≤◌, ◌<◌, ◌≡◌, ◌≢◌, refl, sym, ap, ◌∙◌, Bool, true, false, some,
  List, [], ◌∷◌, ◌++◌, map, select, select-append, arith, String, length, get_elem?, All, same,
  same_refl, ne-same, ok,
}
use hermet.Base.Decimal.{suffixed, suffixed_injective}
use hermet.Sharding.{Dst, Shuffle}
use hermet.Sharding.Modulo
use hermet.Sharding.Modulo.{ModuloSharding, dst_at, shard}
use hermet.Sharding.Modulo.Routing.{IsConfigured, Lands, shard-Lands}
use hermet.Sharding.Modulo.Grid.{
  tables, grid_from, grid, FitsMemory, broadcast-eq-grid, tables-entry, length-tables, entry_left,
  entry_right,
}
use hermet.Sharding.Balanced.{
  Groups, mode_round_robin, group_of, lookup, group_by_db, max_tb_cnt, rounds,
  round_robin_broadcast, broadcast,
}
use hermet.Sharding.Balanced.Groups.{has, has-append, group-le-max}
use hermet.Sharding.Balanced.Order.{nothing-Grouped}
use hermet.Sharding.Balanced.Rounds.{column, columns, rounds-columns}
use hermet.Sharding.Balanced.Names.{
  names, add_name, names-append, group_by_db-names, group_by_db-select, columns-beyond, columns-add,
}

-- `n` numbers from `i` on.
unfoldable upto : ℕ → ℕ → List ℕ
upto i zero = []
upto i (suc n) = i ∷ upto (i + 1) n

round_robin-rounds :
    (ds : List Dst)
    → round_robin_broadcast ds
      ≡ rounds
          (max_tb_cnt 0 (group_by_db ds [] []).1)
          0
          (group_by_db ds [] []).0
          (group_by_db ds [] []).1
          []
unfolding round_robin_broadcast group_by_db max_tb_cnt rounds
round_robin-rounds [] = refl
round_robin-rounds (d ∷ ds) = refl

module _ (s : ModuloSharding) where
  abbrev name : ℕ → String
  name i = suffixed s.db_prefix i

  tables_known :
      (i n j : ℕ) (ks : List String) → has (name i) ks ≡ true → names (tables s i n j) ks ≡ ks
  unfolding tables names dst_at
  tables_known i zero j ks h = refl
  tables_known i (suc n) j ks h =
      ap (λ b. names (tables s i n (j + 1)) (add_name b ks (name i))) h
      ∙ tables_known i n (j + 1) ks h

  added : (k : ℕ) (ks : List String) → has (name k) (ks ++ name k ∷ []) ≡ true
  added k ks = ground (arith, has-append (name k) (name k) ks, same_refl (name k))

  tables_new :
      (i n j : ℕ) (ks : List String)
      → has (name i) ks ≡ false
      → 0 < n
      → names (tables s i n j) ks ≡ ks ++ name i ∷ []
  unfolding tables names dst_at
  tables_new i zero j ks h lt = absurd (omega arith)
  tables_new i (suc n) j ks h lt =
      ap (λ b. names (tables s i n (j + 1)) (add_name b ks (name i))) h
      ∙ tables_known i n (j + 1) (ks ++ name i ∷ []) (added i ks)

  other_name : (i k : ℕ) → i ≢ k → same (name i) (name k) ≡ false
  other_name i k ne = ne-same (λ e. ne (suffixed_injective s.db_prefix i k e))

  still_new :
      (i k : ℕ) (ks : List String)
      → has (name k) ks ≡ false
      → i < k
      → has (name k) (ks ++ name i ∷ []) ≡ false
  still_new i k ks h lt =
      ground (arith, has-append (name k) (name i) ks, other_name i k (omega arith))

  -- The names come up database by database.
  grid_names :
      (n i : ℕ) (ks : List String)
      → 0 < s.tb_shard_count
      → ((k : ℕ) → i ≤ k → has (name k) ks ≡ false)
      → names (grid_from s n i) ks ≡ ks ++ map name (upto i n)
  unfolding grid_from upto names
  grid_names zero i ks t h = sym (append-nil ks)
  grid_names (suc n) i ks t h =
      names-append (tables s i s.tb_shard_count 0) (grid_from s n (i + 1)) ks
      ∙ ap (names (grid_from s n (i + 1)))
          (tables_new i s.tb_shard_count 0 ks (h i (omega arith)) t)
      ∙ grid_names n (i + 1) (ks ++ name i ∷ []) t
          (λ k le. still_new i k ks (h k (omega arith)) (omega arith))
      ∙ append_assoc ks (name i ∷ []) (map name (upto (i + 1) n))

  abbrev in_db : ℕ → Dst → Bool
  in_db k x = same x.db (name k)

  tables_same : (i n j : ℕ) → select (in_db i) (tables s i n j) ≡ tables s i n j
  unfolding tables dst_at
  tables_same i zero j = refl
  tables_same i (suc n) j =
      rw (same_refl (name i)) (ap (λ l. dst_at s i j ∷ l) (tables_same i n (j + 1)))

  tables_other : (i k n j : ℕ) → i ≢ k → select (in_db k) (tables s i n j) ≡ []
  unfolding tables dst_at
  tables_other i k zero j ne = refl
  tables_other i k (suc n) j ne = rw (other_name i k ne) (tables_other i k n (j + 1) ne)

  select_before : (n i k : ℕ) → k < i → select (in_db k) (grid_from s n i) ≡ []
  unfolding grid_from
  select_before zero i k lt = refl
  select_before (suc n) i k lt =
      select-append (in_db k) (tables s i s.tb_shard_count 0) (grid_from s n (i + 1))
      ∙ rw (tables_other i k s.tb_shard_count 0 (omega arith))
          (select_before n (i + 1) k (omega arith))

  -- The destinations of one database, in the order of their tables.
  select_grid :
      (n i p : ℕ)
      → p < n
      → select (in_db (i + p)) (grid_from s n i) ≡ tables s (i + p) s.tb_shard_count 0
  unfolding grid_from
  select_grid zero i p lt = absurd (omega arith)
  select_grid (suc n) i zero lt =
      let e : i + zero ≡ i = omega arith in
      rw e (
        select-append (in_db i) (tables s i s.tb_shard_count 0) (grid_from s n (i + 1))
        ∙ rw (tables_same i s.tb_shard_count 0, select_before n (i + 1) i (omega arith))
            (append-nil (tables s i s.tb_shard_count 0)))
  select_grid (suc n) i (suc p) lt =
      let e : i + suc p ≡ i + 1 + p = omega arith in
      rw e (
        select-append (in_db (i + 1 + p)) (tables s i s.tb_shard_count 0) (grid_from s n (i + 1))
        ∙ rw (tables_other i (i + 1 + p) s.tb_shard_count 0 (omega arith))
            (select_grid n (i + 1) p (omega arith)))

  -- The groups of the whole grid.
  abbrev grouped_grid : List String × Groups
  grouped_grid = group_by_db (grid s) [] []

  group_of-grid :
      (k : ℕ)
      → k < s.db_shard_count
      → group_of grouped_grid.1 (name k) ≡ tables s k s.tb_shard_count 0
  unfolding grid group_of lookup
  group_of-grid k lt =
      let e : zero + k ≡ k = omega arith in
      let h : select (in_db (zero + k)) (grid_from s s.db_shard_count 0)
          ≡ tables s (zero + k) s.tb_shard_count 0 =
        select_grid s.db_shard_count 0 k lt in
      group_by_db-select (name k) (grid s) [] [] ∙ (rw e at h)

  abbrev whole : List ℕ → List (List Dst)
  whole ks = map (λ k. tables s k s.tb_shard_count 0) ks

  groups_whole :
      (n i : ℕ)
      → i + n ≤ s.db_shard_count
      → map (group_of grouped_grid.1) (map name (upto i n)) ≡ whole (upto i n)
  unfolding upto
  groups_whole zero i le = refl
  groups_whole (suc n) i le =
      rw (group_of-grid i (omega arith))
        (ap (λ l. tables s i s.tb_shard_count 0 ∷ l) (groups_whole n (i + 1) (omega arith)))

  -- Table `j` of `n` databases from `i` on.
  unfoldable row : ℕ → ℕ → ℕ → List Dst
  unfolding upto
  row j i n = map (λ k. dst_at s k j) (upto i n)

  column-row : (j n i : ℕ) → j < s.tb_shard_count → column j (whole (upto i n)) ≡ row j i n
  unfolding upto row column
  column-row j zero i lt = refl
  column-row j (suc n) i lt =
      let e : zero + j ≡ j = omega arith in
      rw (tables-entry s i s.tb_shard_count 0 j lt ∙ ap (λ t. some (dst_at s i t)) e)
        (ap (λ l. dst_at s i j ∷ l) (column-row j n (i + 1) lt))

  -- `m` rounds from round `j` on.
  unfoldable by_rows : ℕ → ℕ → List Dst
  by_rows zero j = []
  by_rows (suc m) j = row j 0 s.db_shard_count ++ by_rows m (j + 1)

  columns-by_rows :
      (m j : ℕ)
      → m + j ≤ s.tb_shard_count
      → columns m j (whole (upto 0 s.db_shard_count)) ≡ by_rows m j
  unfolding columns by_rows
  columns-by_rows zero j le = refl
  columns-by_rows (suc m) j le =
      rw (column-row j s.db_shard_count 0 (omega arith))
        (ap (λ l. row j 0 s.db_shard_count ++ l) (columns-by_rows m (j + 1) (omega arith)))

  whole_short :
      (ks : List ℕ) (j : ℕ) → s.tb_shard_count ≤ j → All (λ (l : List Dst). length l ≤ j) (whole ks)
  whole_short [] j le = tt
  whole_short (k ∷ ks) j le =
      (omega (arith, length-tables s k s.tb_shard_count 0), whole_short ks j le)

  length-row : (j i n : ℕ) → length (row j i n) ≡ n
  unfolding row upto
  length-row j i zero = refl
  length-row j i (suc n) = ap suc (length-row j (i + 1) n)

  row-entry : (j i n p : ℕ) → p < n → get_elem? (row j i n) p ≡ some (dst_at s (i + p) j)
  unfolding row upto
  row-entry j i zero p lt = elim lt [ ]
  row-entry j i (suc n) zero lt = ground arith
  row-entry j i (suc n) (suc p) lt =
      let e : i + 1 + p ≡ i + suc p = omega arith in
      row-entry j (i + 1) n p (omega arith) ∙ ap (λ t. some (dst_at s t j)) e

  by_rows-entry :
      (m j q i : ℕ)
      → q < m
      → i < s.db_shard_count
      → get_elem? (by_rows m j) (q * s.db_shard_count + i) ≡ some (dst_at s i (j + q))
  unfolding by_rows
  by_rows-entry zero j q i hq hi = elim hq [ ]
  by_rows-entry (suc m) j zero i hq hi =
      let e : zero * s.db_shard_count + i ≡ i = omega arith in
      let z : zero + i ≡ i = omega arith in
      let w : j + zero ≡ j = omega arith in
      rw e (
        entry_left s (row j 0 s.db_shard_count) (by_rows m (j + 1)) i
          (omega (arith, length-row j 0 s.db_shard_count))
        ∙ row-entry j 0 s.db_shard_count i hi
        ∙ rw (z, w) refl)
  by_rows-entry (suc m) j (suc q) i hq hi =
      let e : suc q * s.db_shard_count + i
          ≡ length (row j 0 s.db_shard_count) + (q * s.db_shard_count + i) =
        omega (arith, length-row j 0 s.db_shard_count) in
      let w : j + 1 + q ≡ j + suc q = omega arith in
      rw e (
        entry_right s (row j 0 s.db_shard_count) (by_rows m (j + 1)) (q * s.db_shard_count + i)
        ∙ by_rows-entry m (j + 1) q i (omega arith) hi
        ∙ ap (λ t. some (dst_at s i t)) w)

  module _ (c : IsConfigured s) where
    names-grid : grouped_grid.0 ≡ map name (upto 0 s.db_shard_count)
    unfolding grid
    names-grid =
        group_by_db-names (grid s) [] [] nothing-Grouped
        ∙ grid_names s.db_shard_count 0 [] c.tbs (λ k le. refl)

    abbrev most : ℕ
    most = max_tb_cnt 0 grouped_grid.1

    most_enough : s.tb_shard_count ≤ most
    most_enough = omega (
      arith,
      group-le-max (name 0) 0 grouped_grid.1,
      ap length (group_of-grid 0 c.dbs),
      length-tables s 0 s.tb_shard_count 0,
    )

    all_columns : columns most 0 (whole (upto 0 s.db_shard_count)) ≡ by_rows s.tb_shard_count 0
    all_columns =
        let ls = whole (upto 0 s.db_shard_count) in
        let e : most ≡ s.tb_shard_count + (most - s.tb_shard_count) = omega (arith, most_enough) in
        ap (λ n. columns n 0 ls) e
        ∙ columns-add s.tb_shard_count (most - s.tb_shard_count) 0 ls
        ∙ ap (λ l. columns s.tb_shard_count 0 ls ++ l)
            (columns-beyond (most - s.tb_shard_count) (0 + s.tb_shard_count) ls
              (λ j le. whole_short (upto 0 s.db_shard_count) j (omega arith)))
        ∙ append-nil (columns s.tb_shard_count 0 ls)
        ∙ columns-by_rows s.tb_shard_count 0 (omega arith)

    round_robin-grid : round_robin_broadcast (grid s) ≡ by_rows s.tb_shard_count 0
    round_robin-grid =
        round_robin-rounds (grid s)
        ∙ rounds-columns most 0 grouped_grid.0 grouped_grid.1 []
        ∙ ap (λ ks. columns most 0 (map (group_of grouped_grid.1) ks)) names-grid
        ∙ ap (columns most 0) (groups_whole s.db_shard_count 0 (omega arith))
        ∙ all_columns

    -- With positive counts whose product fits uint64, and a slice of all tables that fits the
    -- memory that Go can address, a round robin broadcast over the modulo strategy returns the tables in the order of the shard values: for each value `v` below the
    -- number of shards, place `v` of the list holds the destination that `Shard` has for `v`.
    pub broadcast-shard :
        (shuffle : Shuffle) (v : ℕ)
        → FitsMemory s
        → v < s.db_shard_count * s.tb_shard_count
        → (res : List Dst) × (dst : Dst) × (broadcast
              (record { base = Modulo.as_strategy s; mode = mode_round_robin })
              shuffle
            ≡ ok res)
          × (get_elem? res v ≡ some dst)
          × (shard s v ≡ ok dst)
    unfolding broadcast Modulo.as_strategy
    broadcast-shard shuffle v f lt =
        let l : Lands s c v = shard-Lands s c v in
        let e : l.j * s.db_shard_count + l.i ≡ v = l.index ∙ mod-eq_of_lt lt in
        let z : zero + l.j ≡ l.j = omega arith in
        (
          by_rows s.tb_shard_count 0,
          dst_at s l.i l.j,
          rw (broadcast-eq-grid s c f) (ap ok round_robin-grid),
          ap (get_elem? (by_rows s.tb_shard_count 0)) (sym e)
              ∙ by_rows-entry s.tb_shard_count 0 l.j l.i l.in_tbs l.in_dbs
              ∙ ap (λ t. some (dst_at s l.i t)) z,
          l.target,
        )
