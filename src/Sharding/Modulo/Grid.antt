-- ===== src/Sharding/Modulo/Grid.antt =====
-- modulo_sharding.go, `Broadcast`: the loops write every table of every database, row by row.
use native.Mathlib.Nat.{mod-eq_of_lt}
use mathlib.Core.List.{append_assoc}
use hermet.Base.{
  leb, true, ℕ, zero, suc, ◌+◌, ◌*◌, ◌<◌, ◌≤◌, ◌≡◌, refl, sym, ap, ◌∙◌, List, [], ◌∷◌, ◌++◌, arith,
  some, length, length-append, get_elem?, set, replicate, ok,
}
use hermet.Sharding.{u64, Dst, zero_dst}
use hermet.Sharding.Modulo.{
  ModuloSharding, dst_at, store, fill_tables, fill_databases, dst_bytes, max_alloc, make_dsts,
  broadcast,
}
use hermet.Sharding.Modulo.Routing.{IsConfigured, total-eq-shards}

-- The tables of database `i` from table `j` on, and of all databases from `i` on.
unfoldable pub tables : ModuloSharding → ℕ → ℕ → ℕ → List Dst
tables s i zero j = []
tables s i (suc n) j = dst_at s i j ∷ tables s i n (j + 1)

unfoldable pub grid_from : ModuloSharding → ℕ → ℕ → List Dst
grid_from s zero i = []
grid_from s (suc n) i = tables s i s.tb_shard_count 0 ++ grid_from s n (i + 1)

-- Every table once, database by database.
unfoldable pub grid : ModuloSharding → List Dst
grid s = grid_from s s.db_shard_count 0

set-append {ℓ} :
    {A : Type ℓ} (xs : List A) (y v : A) (ys : List A)
    → set (xs ++ y ∷ ys) (length xs) v ≡ xs ++ v ∷ ys
set-append [] y v ys = refl
set-append (x ∷ xs) y v ys = ap (λ l. x ∷ l) (set-append xs y v ys)

replicate-add {ℓ} :
    {A : Type ℓ} (n m : ℕ) (a : A) → replicate (n + m) a ≡ replicate n a ++ replicate m a
replicate-add zero m a = ground arith
replicate-add (suc n) m a =
    let e : suc n + m ≡ suc (n + m) = omega arith in rw e (ap (λ l. a ∷ l) (replicate-add n m a))

module _ (s : ModuloSharding) where
  store_next :
      (i j : ℕ) (xs ys : List Dst)
      → length xs ≡ i * s.tb_shard_count + j
      → length xs + 1 < u64
      → store s i j (xs ++ zero_dst ∷ ys) ≡ ok (xs ++ dst_at s i j ∷ ys)
  unfolding store
  store_next i j xs ys at fits = ground (
    arith,
    set-append xs zero_dst (dst_at s i j) ys,
    length-append xs (zero_dst ∷ ys),
    mod-eq_of_lt {n = i * s.tb_shard_count} {m = u64} (omega arith),
    mod-eq_of_lt {n = i * s.tb_shard_count + j} {m = u64} (omega arith),
  )

  pub length-tables : (i n j : ℕ) → length (tables s i n j) ≡ n
  unfolding tables
  length-tables i zero j = refl
  length-tables i (suc n) j = ap suc (length-tables i n (j + 1))

  fill_tables_lem :
      (i n j : ℕ) (xs ys : List Dst)
      → length xs ≡ i * s.tb_shard_count + j
      → length xs + n < u64
      → fill_tables s i n j (xs ++ (replicate n zero_dst ++ ys)) ≡ ok (xs ++ (tables s i n j ++ ys))
  unfolding fill_tables tables
  fill_tables_lem i zero j xs ys at fits = refl
  fill_tables_lem i (suc n) j xs ys at fits =
      let d = dst_at s i j in
      rw (store_next i j xs (replicate n zero_dst ++ ys) at (omega arith)) (
        ap (fill_tables s i n (j + 1)) (sym (append_assoc xs (d ∷ []) (replicate n zero_dst ++ ys)))
        ∙ fill_tables_lem i n (j + 1) (xs ++ d ∷ []) ys
            (omega (arith, length-append xs (d ∷ []), at))
            (omega (arith, length-append xs (d ∷ []), fits))
        ∙ ap ok (append_assoc xs (d ∷ []) (tables s i n (j + 1) ++ ys)))

  fill_databases_lem :
      (n i : ℕ) (xs : List Dst)
      → length xs ≡ i * s.tb_shard_count
      → length xs + n * s.tb_shard_count < u64
      → fill_databases s n i (xs ++ replicate (n * s.tb_shard_count) zero_dst)
        ≡ ok (xs ++ grid_from s n i)
  unfolding fill_databases grid_from
  fill_databases_lem zero i xs at fits = let e : zero * s.tb_shard_count ≡ 0 = omega arith in rw e
  fill_databases_lem (suc n) i xs at fits =
      let t = s.tb_shard_count in
      let row = tables s i t 0 in
      let e : suc n * t ≡ t + n * t = omega arith in
      let len : length (xs ++ row) ≡ length xs + t =
        omega (arith, length-append xs row, length-tables i t 0) in
      rw (e, replicate-add t (n * t) zero_dst)
        (rw (fill_tables_lem i t 0 xs (replicate (n * t) zero_dst) (omega arith) (omega arith)) (
          ap (fill_databases s n (i + 1)) (sym (append_assoc xs row _))
          ∙ fill_databases_lem n (i + 1) (xs ++ row) (omega arith) (omega arith)
          ∙ ap ok (append_assoc xs row _)))

  -- The slice of all tables can be made.
  abbrev pub FitsMemory : Type 0
  FitsMemory = dst_bytes * (s.db_shard_count * s.tb_shard_count) ≤ max_alloc

  -- With positive counts whose product fits uint64 and memory the broadcast returns, and it
  -- returns the tables of all databases, database by database.
  pub broadcast-eq-grid : IsConfigured s → FitsMemory → broadcast s ≡ ok (grid s)
  unfolding broadcast grid make_dsts
  broadcast-eq-grid c f =
      let fits : leb (dst_bytes * (s.db_shard_count * s.tb_shard_count)) max_alloc ≡ true =
        ground arith in
      rw (total-eq-shards s c, fits)
        (fill_databases_lem s.db_shard_count 0 [] (omega arith) (omega (arith, c.product)))

  length-grid_from : (n i : ℕ) → length (grid_from s n i) ≡ n * s.tb_shard_count
  unfolding grid_from
  length-grid_from zero i = omega arith
  length-grid_from (suc n) i =
      let row = tables s i s.tb_shard_count 0 in
      omega (
        arith,
        length-append row (grid_from s n (i + 1)),
        length-tables i s.tb_shard_count 0,
        length-grid_from n (i + 1),
      )

  pub tables-entry :
      (i n j k : ℕ) → k < n → get_elem? (tables s i n j) k ≡ some (dst_at s i (j + k))
  unfolding tables
  tables-entry i zero j k h = elim h [ ]
  tables-entry i (suc n) j zero h = ground arith
  tables-entry i (suc n) j (suc k) h =
      let e : j + 1 + k ≡ j + suc k = omega arith in
      tables-entry i n (j + 1) k (omega arith) ∙ ap (λ t. some (dst_at s i t)) e

  pub entry_left :
      (xs ys : List Dst) (k : ℕ) → k < length xs → get_elem? (xs ++ ys) k ≡ get_elem? xs k
  entry_left [] ys k h = elim h [ ]
  entry_left (x ∷ xs) ys zero h = refl
  entry_left (x ∷ xs) ys (suc k) h = entry_left xs ys k (omega arith)

  pub entry_right :
      (xs ys : List Dst) (k : ℕ) → get_elem? (xs ++ ys) (length xs + k) ≡ get_elem? ys k
  entry_right [] ys k = ground arith
  entry_right (x ∷ xs) ys k =
      let e : length (x ∷ xs) + k ≡ suc (length xs + k) = omega arith in rw e (entry_right xs ys k)

  grid_from-entry :
      (n i p j : ℕ)
      → p < n
      → j < s.tb_shard_count
      → get_elem? (grid_from s n i) (p * s.tb_shard_count + j) ≡ some (dst_at s (i + p) j)
  unfolding grid_from
  grid_from-entry zero i p j hp hj = elim hp [ ]
  grid_from-entry (suc n) i zero j hp hj =
      let row = tables s i s.tb_shard_count 0 in
      let e : zero * s.tb_shard_count + j ≡ j = omega arith in
      rw e (
        entry_left row (grid_from s n (i + 1)) j (omega (arith, length-tables i s.tb_shard_count 0))
        ∙ tables-entry i s.tb_shard_count 0 j hj
        ∙ ground arith)
  grid_from-entry (suc n) i (suc p) j hp hj =
      let row = tables s i s.tb_shard_count 0 in
      let e : suc p * s.tb_shard_count + j ≡ length row + (p * s.tb_shard_count + j) =
        omega (arith, length-tables i s.tb_shard_count 0) in
      rw e (
        entry_right row (grid_from s n (i + 1)) (p * s.tb_shard_count + j)
        ∙ grid_from-entry n (i + 1) p j (omega arith) hj
        ∙ ground arith)

  -- With positive counts whose product fits uint64, and a slice of all tables that fits the memory
  -- that Go can address, the broadcast returns, its list has one entry for each table of each
  -- database, and at place `i * tables + j` stands table `j` of database `i`.
  pub broadcast_entries :
      (i j : ℕ)
      → IsConfigured s
      → FitsMemory
      → i < s.db_shard_count
      → j < s.tb_shard_count
      → (res : List Dst) × (broadcast s ≡ ok res)
        × (length res ≡ s.db_shard_count * s.tb_shard_count)
        × (get_elem? res (i * s.tb_shard_count + j) ≡ some (dst_at s i j))
  unfolding grid
  broadcast_entries i j c f hi hj = (
    grid s,
    broadcast-eq-grid c f,
    length-grid_from s.db_shard_count 0,
    grid_from-entry s.db_shard_count 0 i j hi hj ∙ ground arith,
  )
