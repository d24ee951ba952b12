-- ===== src/Sharding/Balanced/Names.antt =====
-- balanced_sharding.go, the grouping loop of `roundRobinBroadcast`: which names it keeps and what
-- each group holds, in order.
use mathlib.Core.List.{append-nil, append_assoc}
use hermet.Base.{
  ℕ, zero, suc, ◌+◌, ◌≤◌, ◌≡◌, refl, sym, ap, ◌∙◌, Bool, true, false, Option, none, some, List, [],
  ◌∷◌, ◌++◌, select, arith, String, length, get_elem?, All, same, same_iff, if◌then◌else◌,
}
use hermet.Sharding.{Dst}
use hermet.Sharding.Balanced.{Groups, lookup, insert, group_of, or_add, group_by_db}
use hermet.Sharding.Balanced.Groups.{has, is_some, Grouped, one-Step, lookup-insert}
use hermet.Sharding.Balanced.Rounds.{column, columns}

abbrev pub add_name : Bool → List String → String → List String
add_name true ks k = ks
add_name false ks k = ks ++ k ∷ []

-- The names in the order in which they come up.
unfoldable pub names : List Dst → List String → List String
names [] ks = ks
names (d ∷ ds) ks = names ds (add_name (has d.db ks) ks d.db)

or_add-add_name :
    (o : Option (List Dst)) (b : Bool) (ks : List String) (k : String)
    → is_some o ≡ b
    → or_add o ks k ≡ add_name b ks k
or_add-add_name none true ks k h = cc
or_add-add_name none false ks k h = refl
or_add-add_name (some l) true ks k h = refl
or_add-add_name (some l) false ks k h = cc

pub group_by_db-names :
    (ds : List Dst) (ks : List String) (m : Groups)
    → Grouped ks m
    → (group_by_db ds ks m).0 ≡ names ds ks
unfolding group_by_db names
group_by_db-names [] ks m g = refl
group_by_db-names (d ∷ ds) ks m g =
    group_by_db-names ds _ _ (one-Step d ks m (lookup d.db m) refl g).grouped
    ∙ ap (names ds) (or_add-add_name (lookup d.db m) (has d.db ks) ks d.db (g.keys d.db))

group_of-insert :
    (k j : String) (v : List Dst) (m : Groups)
    → group_of (insert k v m) j ≡ (if same k j then v else group_of m j)
unfolding group_of
group_of-insert k j v m = ground (arith, lookup-insert k j v m)

-- One destination more, as its group sees it and as another does.
group_step :
    (k : String) (d : Dst) (ds : List Dst) (m : Groups) (b : Bool)
    → same d.db k ≡ b
    → group_of (insert d.db (group_of m d.db ++ d ∷ []) m) k ++ select (λ x. same x.db k) ds
      ≡ group_of m k ++ select (λ x. same x.db k) (d ∷ ds)
group_step k d ds m true e =
    let rest = select (λ x. same x.db k) ds in
    rw (group_of-insert d.db k (group_of m d.db ++ d ∷ []) m, e)
      (append_assoc (group_of m d.db) (d ∷ []) rest
        ∙ ap (λ j. group_of m j ++ d ∷ rest) ((same_iff d.db k).0 e))
group_step k d ds m false e = rw (group_of-insert d.db k (group_of m d.db ++ d ∷ []) m, e) refl

-- Each group holds the destinations with its name, in their order.
pub group_by_db-select :
    (k : String) (ds : List Dst) (ks : List String) (m : Groups)
    → group_of (group_by_db ds ks m).1 k ≡ group_of m k ++ select (λ x. same x.db k) ds
unfolding group_by_db
group_by_db-select k [] ks m = sym (append-nil (group_of m k))
group_by_db-select k (d ∷ ds) ks m = group_by_db-select k ds _ _ ∙ group_step k d ds m _ refl

pub names-append :
    (ds es : List Dst) (ks : List String) → names (ds ++ es) ks ≡ names es (names ds ks)
unfolding names
names-append [] es ks = refl
names-append (d ∷ ds) es ks = names-append ds es (add_name (has d.db ks) ks d.db)

-- A round beyond the end of every list takes nothing.
column-beyond : (i : ℕ) (ls : List (List Dst)) → All (λ l. length l ≤ i) ls → column i ls ≡ []
unfolding column
column-beyond i [] h = refl
column-beyond i (l ∷ ls) h = rw (beyond l i h.0) (column-beyond i ls h.1)
  where
    beyond : (l : List Dst) (i : ℕ) → length l ≤ i → get_elem? l i ≡ none
    beyond [] i h = refl
    beyond (x ∷ l) zero h = absurd (omega arith)
    beyond (x ∷ l) (suc i) h = beyond l i (omega arith)

pub columns-beyond :
    (n i : ℕ) (ls : List (List Dst))
    → ((j : ℕ) → i ≤ j → All (λ l. length l ≤ j) ls)
    → columns n i ls ≡ []
unfolding columns
columns-beyond zero i ls h = refl
columns-beyond (suc n) i ls h =
    rw (column-beyond i ls (h i (omega arith)))
      (columns-beyond n (i + 1) ls (λ j le. h j (omega arith)))

pub columns-add :
    (n k i : ℕ) (ls : List (List Dst))
    → columns (n + k) i ls ≡ columns n i ls ++ columns k (i + n) ls
unfolding columns
columns-add zero k i ls =
    let p : zero + k ≡ k = omega arith in let q : i + zero ≡ i = omega arith in rw (p, q) refl
columns-add (suc n) k i ls =
    let p : suc n + k ≡ suc (n + k) = omega arith in
    let q : i + 1 + n ≡ i + suc n = omega arith in
    rw p (
      ap (λ l. column i ls ++ l)
        (columns-add n k (i + 1) ls ∙ ap (λ j. columns n (i + 1) ls ++ columns k j ls) q)
      ∙ sym (append_assoc (column i ls) (columns n (i + 1) ls) (columns k (i + suc n) ls)))
