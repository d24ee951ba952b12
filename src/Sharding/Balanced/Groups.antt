-- ===== src/Sharding/Balanced/Groups.antt =====
-- balanced_sharding.go, the grouping loop of `roundRobinBroadcast`: the groups hold what came in.
use mathlib.Core.List.{append-nil, append_assoc, flatten, Perm, perm_middle, perm_append_singleton}
use mathlib.Core.List.Perm
use hermet.Base.{
  ℕ, ◌≤◌, ◌≡◌, refl, sym, ap, ◌∙◌, Bool, true, false, ◌||◌, Option, none, some, List, [], ◌∷◌, ◌++◌,
  map, arith, String, length, same, same_iff, same_refl, if◌then◌else◌, Bool-cases, inl, inr, ltb,
}
use hermet.Sharding.{Dst}
use hermet.Sharding.Balanced.{Groups, lookup, insert, group_of, or_add, group_by_db, max_tb_cnt}

-- Is the name in the list?
abbrev pub has : String → List String → Bool
has k [] = false
has k (j ∷ ks) = same j k || has k ks

abbrev pub Distinct : List String → Type 0
Distinct [] = Unit
Distinct (k ∷ ks) = (has k ks ≡ false) × Distinct ks

abbrev pub is_some : Option (List Dst) → Bool
is_some none = false
is_some (some l) = true

pub lookup-insert :
    (k j : String) (v : List Dst) (m : Groups)
    → lookup j (insert k v m) ≡ (if same k j then some v else lookup j m)
unfolding lookup insert
lookup-insert k j v [] = refl
lookup-insert k j v ((i, w) ∷ m) =
    ground (arith, same_iff k j, same_iff i k, same_iff i j, lookup-insert k j v m)

-- The names are distinct and are the keys of the map.
pub record Grouped (dbs : List String) (m : Groups) : Type 0 where
  pub distinct : Distinct dbs
  pub keys : (k : String) → is_some (lookup k m) ≡ has k dbs

group_of-insert_same : (k : String) (v : List Dst) (m : Groups) → group_of (insert k v m) k ≡ v
unfolding group_of
group_of-insert_same k v m = ground (arith, lookup-insert k k v m, same_refl k)

group_of-insert_other :
    (k j : String) (v : List Dst) (m : Groups)
    → same k j ≡ false
    → group_of (insert k v m) j ≡ group_of m j
unfolding group_of
group_of-insert_other k j v m h = ground (arith, lookup-insert k j v m)

-- Other groups are not touched.
map-group_other :
    (k : String) (v : List Dst) (m : Groups) (ks : List String)
    → has k ks ≡ false
    → map (group_of (insert k v m)) ks ≡ map (group_of m) ks
map-group_other k v m [] h = refl
map-group_other k v m (j ∷ ks) h =
    ground
      (arith, group_of-insert_other k j v m, same_iff k j, same_iff j k, map-group_other k v m ks)

pub has-append : (k j : String) (ks : List String) → has k (ks ++ j ∷ []) ≡ (has k ks || same j k)
has-append k j [] = ground arith
has-append k j (i ∷ ks) = ground (arith, has-append k j ks)

Distinct-append :
    (k : String) (ks : List String) → has k ks ≡ false → Distinct ks → Distinct (ks ++ k ∷ [])
Distinct-append k [] h d = (refl, tt)
Distinct-append k (j ∷ ks) h d = (
  ground (arith, has-append j k ks, same_iff j k, same_iff k j),
  Distinct-append k ks (ground arith) d.1,
)

step-Grouped_new :
    (d : Dst) (dbs : List String) (m : Groups) (v : List Dst)
    → Grouped dbs m
    → lookup d.db m ≡ none
    → Grouped (dbs ++ d.db ∷ []) (insert d.db v m)
step-Grouped_new d dbs m v g h = record {
  distinct = Distinct-append d.db dbs (ground (arith, g.keys d.db)) g.distinct;
  keys = λ k. ground (arith, g.keys k, lookup-insert d.db k v m, has-append k d.db dbs);
}

step-Grouped_old :
    (d : Dst) (dbs : List String) (m : Groups) (v l : List Dst)
    → Grouped dbs m
    → lookup d.db m ≡ some l
    → Grouped dbs (insert d.db v m)
step-Grouped_old d dbs m v l g h = record {
  distinct = g.distinct;
  keys = λ k. ground (
    arith,
    g.keys k,
    g.keys d.db,
    lookup-insert d.db k v m,
    same_iff d.db k,
    ap (λ x. has x dbs) {x = d.db} {y = k},
  );
}

-- All that the groups hold, in the order of the names.
unfoldable pub total : List String → Groups → List Dst
total dbs m = flatten (map (group_of m) dbs)

flatten-append : (ls : List (List Dst)) (l : List Dst) → flatten (ls ++ l ∷ []) ≡ flatten ls ++ l
unfolding flatten
flatten-append [] l = append-nil l
flatten-append (k ∷ ls) l =
    ap (λ x. k ++ x) (flatten-append ls l) ∙ sym (append_assoc k (flatten ls) l)

map-append_one :
    (f : String → List Dst) (ks : List String) (k : String)
    → map f (ks ++ k ∷ []) ≡ map f ks ++ f k ∷ []
map-append_one f [] k = refl
map-append_one f (j ∷ ks) k = ap (λ l. f j ∷ l) (map-append_one f ks k)

-- One more destination in the group of a name that is there.
more_in_group :
    (k : String) (d : Dst) (m : Groups) (ks : List String)
    → Distinct ks
    → has k ks ≡ true
    → Perm (total ks (insert k (group_of m k ++ d ∷ []) m)) (d ∷ total ks m)
unfolding total flatten
more_in_group k d m [] u h = absurd (ground arith)
more_in_group k d m (j ∷ ks) u h =
    let v = group_of m k ++ d ∷ [] in
    let t = flatten (map (group_of m) ks) in
    elim (Bool-cases (same j k)) [
      | inl e ↦
          let p : j ≡ k = (same_iff j k).0 e in
          rw p (
            rw
              (
                group_of-insert_same k v m,
                map-group_other k v m ks (ground (arith, u.0, ap (λ x. has x ks) p)),
              )
              (rw append_assoc (perm_middle (group_of m k) t)))
      | inr n ↦ rw (group_of-insert_other k j v m (ground (arith, same_iff j k, same_iff k j))) (
          Perm.trans (Perm.append_left (group_of m j) (more_in_group k d m ks u.1 (ground arith)))
            (perm_middle (group_of m j) t))
    ]

-- A name that is new gets a group of its own.
new_group :
    (k : String) (d : Dst) (m : Groups) (ks : List String)
    → has k ks ≡ false
    → lookup k m ≡ none
    → Perm (total (ks ++ k ∷ []) (insert k (group_of m k ++ d ∷ []) m)) (d ∷ total ks m)
unfolding total
new_group k d m ks h n =
    let v = group_of m k ++ d ∷ [] in
    rw
      (
        map-append_one (group_of (insert k v m)) ks k,
        flatten-append,
        group_of-insert_same k v m,
        map-group_other k v m ks h,
      )
      (unfold group_of in rw n (perm_append_singleton d (flatten (map (group_of m) ks))))

pub record Step (d : Dst) (dbs dbs' : List String) (m m' : Groups) : Type 0 where
  pub grouped : Grouped dbs' m'
  content : Perm (total dbs' m') (d ∷ total dbs m)

pub one-Step :
    (d : Dst) (dbs : List String) (m : Groups) (o : Option (List Dst))
    → lookup d.db m ≡ o
    → Grouped dbs m
    → Step d dbs (or_add o dbs d.db) m (insert d.db (group_of m d.db ++ d ∷ []) m)
one-Step d dbs m none e g = record {
  grouped = step-Grouped_new d dbs m _ g e;
  content = new_group d.db d m dbs (ground (arith, g.keys d.db)) e;
}
one-Step d dbs m (some l) e g = record {
  grouped = step-Grouped_old d dbs m _ l g e;
  content = more_in_group d.db d m dbs g.distinct (ground (arith, g.keys d.db));
}

-- What the loop leaves.
pub record Done (ds : List Dst) (dbs : List String) (m : Groups) (r : List String × Groups)
    : Type 0 where
  pub grouped : Grouped r.0 r.1
  pub content : Perm (total r.0 r.1) (total dbs m ++ ds)

pub group_by_db-Done :
    (ds : List Dst) (dbs : List String) (m : Groups)
    → Grouped dbs m
    → Done ds dbs m (group_by_db ds dbs m)
unfolding group_by_db
group_by_db-Done [] dbs m g = record {
  grouped = g;
  content = rw append-nil (Perm.refl (total dbs m));
}
group_by_db-Done (d ∷ ds) dbs m g =
    let s = one-Step d dbs m (lookup d.db m) refl g in
    let r = group_by_db-Done ds _ _ s.grouped in
    record {
      grouped = r.grouped;
      content =
          Perm.trans r.content (
            Perm.trans (Perm.append_right ds s.content) (Perm.symm (perm_middle (total dbs m) ds)));
    }

max_tb_cnt-ge : (n : ℕ) (m : Groups) → n ≤ max_tb_cnt n m
unfolding max_tb_cnt
max_tb_cnt-ge n [] = omega arith
max_tb_cnt-ge n ((k, tbs) ∷ m) = ground (arith, max_tb_cnt-ge (length tbs) m, max_tb_cnt-ge n m)

pub group-le-max : (k : String) (n : ℕ) (m : Groups) → length (group_of m k) ≤ max_tb_cnt n m
unfolding group_of lookup max_tb_cnt
group-le-max k n [] = omega arith
group-le-max k n ((j, tbs) ∷ m) =
    let next = if ltb n (length tbs) then length tbs else n in
    ground (arith, max_tb_cnt-ge next m, group-le-max k next m)
