-- ===== src/Sharding/Balanced/Rounds.antt =====
-- balanced_sharding.go, the rounds of `roundRobinBroadcast`: taking one table of each group in turn
-- uses every table of every group once.
use mathlib.Core.List.{append-nil, append_assoc, flatten, Perm, perm_append_comm}
use mathlib.Core.List.Perm
use mathlib.Core.Path.{subst}
use hermet.Base.{
  ℕ, zero, suc, ◌+◌, ◌≤◌, ◌≡◌, refl, sym, ap, ◌∙◌, Option, none, some, List, [], ◌∷◌, ◌++◌, map,
  arith, length, get_elem?, String, All,
}
use hermet.Sharding.{Dst}
use hermet.Sharding.Balanced.{Groups, group_of, or_skip, one_round, rounds}

-- The elements at place `i` of each list, and those of `n` places.
abbrev one : Option Dst → List Dst
one none = []
one (some d) = d ∷ []

unfoldable pub column : ℕ → List (List Dst) → List Dst
column i [] = []
column i (l ∷ ls) = one (get_elem? l i) ++ column i ls

unfoldable pub columns : ℕ → ℕ → List (List Dst) → List Dst
columns zero i ls = []
columns (suc n) i ls = column i ls ++ columns n (i + 1) ls

or_skip_lem : (o : Option Dst) (res : List Dst) → or_skip o res ≡ res ++ one o
or_skip_lem none res = sym (append-nil res)
or_skip_lem (some d) res = refl

one_round-column :
    (i : ℕ) (dbs : List String) (m : Groups) (res : List Dst)
    → one_round i dbs m res ≡ res ++ column i (map (group_of m) dbs)
unfolding one_round column
one_round-column i [] m res = sym (append-nil res)
one_round-column i (db ∷ dbs) m res =
    let o = get_elem? (group_of m db) i in
    one_round-column i dbs m (or_skip o res)
    ∙ ap (λ l. l ++ column i (map (group_of m) dbs)) (or_skip_lem o res)
    ∙ append_assoc res (one o) _

pub rounds-columns :
    (n i : ℕ) (dbs : List String) (m : Groups) (res : List Dst)
    → rounds n i dbs m res ≡ res ++ columns n i (map (group_of m) dbs)
unfolding rounds columns
rounds-columns zero i dbs m res = sym (append-nil res)
rounds-columns (suc n) i dbs m res =
    let ls = map (group_of m) dbs in
    rounds-columns n (i + 1) dbs m (one_round i dbs m res)
    ∙ ap (λ l. l ++ columns n (i + 1) ls) (one_round-column i dbs m res)
    ∙ append_assoc res (column i ls) _

abbrev rest : List Dst → List Dst
rest [] = []
rest (d ∷ l) = l

column-rest : (i : ℕ) (ls : List (List Dst)) → column (i + 1) ls ≡ column i (map rest ls)
unfolding column
column-rest i [] = refl
column-rest i ([] ∷ ls) = ground (arith, column-rest i ls)
column-rest i ((d ∷ l) ∷ ls) = ground (arith, column-rest i ls)

columns-rest : (n i : ℕ) (ls : List (List Dst)) → columns n (i + 1) ls ≡ columns n i (map rest ls)
unfolding columns
columns-rest zero i ls = refl
columns-rest (suc n) i ls = ground (arith, column-rest i ls, columns-rest n (i + 1) ls)

first_column-perm :
    (ls : List (List Dst)) → Perm (column 0 ls ++ flatten (map rest ls)) (flatten ls)
unfolding column flatten
first_column-perm [] = Perm.refl []
first_column-perm ([] ∷ ls) = first_column-perm ls
first_column-perm ((d ∷ l) ∷ ls) =
    let c = column 0 ls in
    let f = flatten (map rest ls) in
    Perm.cons d (
      subst (λ x. Perm x (l ++ flatten ls)) (append_assoc c l f)
        (Perm.trans (Perm.append_right f (perm_append_comm c l)) (
          subst (λ x. Perm x (l ++ flatten ls)) (sym (append_assoc l c f))
            (Perm.append_left l (first_column-perm ls)))))

no_columns : (ls : List (List Dst)) → All (λ l. length l ≤ 0) ls → flatten ls ≡ []
unfolding flatten
no_columns [] h = refl
no_columns ([] ∷ ls) h = no_columns ls h.1
no_columns ((d ∷ l) ∷ ls) h = absurd (omega arith)

rest_short :
    (n : ℕ) (ls : List (List Dst))
    → All (λ l. length l ≤ suc n) ls
    → All (λ l. length l ≤ n) (map rest ls)
rest_short n [] h = tt
rest_short n ([] ∷ ls) h = (omega arith, rest_short n ls h.1)
rest_short n ((d ∷ l) ∷ ls) h = (omega arith, rest_short n ls h.1)

-- With as many rounds as the longest list needs, all elements come, each once.
pub columns-perm :
    (n : ℕ) (ls : List (List Dst)) → All (λ l. length l ≤ n) ls → Perm (columns n 0 ls) (flatten ls)
unfolding columns
columns-perm zero ls h = rw (no_columns ls h) (Perm.refl [])
columns-perm (suc n) ls h =
    let e : columns n (0 + 1) ls ≡ columns n 0 (map rest ls) = columns-rest n 0 ls in
    rw e (
      Perm.trans (Perm.append_left (column 0 ls) (columns-perm n (map rest ls) (rest_short n ls h)))
        (first_column-perm ls))
