-- ===== src/Sharding/Balanced/Order.antt =====
-- balanced_sharding.go, `Broadcast`: every mode returns the destinations of the base, each as often
-- as the base does, in some order.
use mathlib.Core.List.{flatten, Perm, perm-cons}
use mathlib.Core.List.Perm
use mathlib.Core.Path.{subst}
use hermet.Base.{
  ℕ, zero, suc, ◌≤◌, ◌≡◌, refl, Bool, true, false, Option, none, some, List, [], ◌∷◌, map, String,
  All, length, get_elem?, set, same, if◌then◌else◌, Outcome, ok, err, panic, pending, then_do,
}
use hermet.Sharding.{Dst, Shuffle}
use hermet.Sharding.Balanced.{
  BalancedSharding, Groups, lookup, group_of, group_by_db, max_tb_cnt, round_robin_broadcast,
  swapped, swap, apply_swaps, shuffle_broadcast, broadcast, mode_round_robin, mode_shuffle,
}
use hermet.Sharding.Balanced.Rounds.{rounds-columns, columns-perm}
use hermet.Sharding.Balanced.Groups.{Grouped, total, group_by_db-Done, Done, group-le-max}

pub nothing-Grouped : Grouped [] []
unfolding lookup
nothing-Grouped = record { distinct = tt; keys = λ k. refl }

All-short :
    (m : Groups) (dbs : List String)
    → All (λ (l : List Dst). length l ≤ max_tb_cnt 0 m) (map (group_of m) dbs)
All-short m [] = tt
All-short m (k ∷ dbs) = (group-le-max k 0 m, All-short m dbs)

pub round_robin-perm : (ds : List Dst) → Perm (round_robin_broadcast ds) ds
unfolding round_robin_broadcast flatten
round_robin-perm [] = Perm.refl []
round_robin-perm (d ∷ ds) =
    let r = group_by_db (d ∷ ds) [] [] in
    let f : Done (d ∷ ds) [] [] r = group_by_db-Done (d ∷ ds) [] [] nothing-Grouped in
    let n = max_tb_cnt 0 r.1 in
    rw (rounds-columns n 0 r.0 r.1 []) (
      Perm.trans (columns-perm n (map (group_of r.1) r.0) (All-short r.1 r.0))
        (unfold total in f.content))

-- A write takes one element out and puts one in.
set-perm :
    (xs : List Dst) (i : ℕ) (x v : Dst) → get_elem? xs i ≡ some x → Perm (x ∷ set xs i v) (v ∷ xs)
set-perm [] i x v h = cc
set-perm (y ∷ xs) zero x v h = let e : y ≡ x = cc in rw e (Perm.swap v x xs)
set-perm (y ∷ xs) (suc i) x v h =
    Perm.trans (Perm.swap y x (set xs i v))
      (Perm.trans (Perm.cons y (set-perm xs i x v h)) (Perm.swap v y xs))

get_elem?-set :
    (xs : List Dst) (i j : ℕ) (y : Dst)
    → get_elem? xs j ≡ some y
    → get_elem? (set xs i y) j ≡ some y
get_elem?-set [] i j y h = h
get_elem?-set (x ∷ xs) zero zero y h = refl
get_elem?-set (x ∷ xs) zero (suc j) y h = h
get_elem?-set (x ∷ xs) (suc i) zero y h = h
get_elem?-set (x ∷ xs) (suc i) (suc j) y h = get_elem?-set xs i j y h

swap-perm :
    (i j : ℕ) (res : List Dst) (x y : Dst)
    → get_elem? res i ≡ some x
    → get_elem? res j ≡ some y
    → Perm (set (set res i y) j x) res
swap-perm i j res x y hi hj =
    (perm-cons y).0 (
      Perm.trans (set-perm (set res i y) j y x (get_elem?-set res i j y hj))
        (set-perm res i x y hi))

swapped-perm :
    (i j : ℕ) (res ys : List Dst) (a b : Option Dst)
    → get_elem? res i ≡ a
    → get_elem? res j ≡ b
    → swapped i j a b res ≡ ok ys
    → Perm ys res
swapped-perm i j res ys (some x) (some y) hi hj h =
    let e : set (set res i y) j x ≡ ys = cc in
    subst (λ l. Perm l res) e (swap-perm i j res x y hi hj)
swapped-perm i j res ys (some x) none hi hj h = absurd (cc)
swapped-perm i j res ys none b hi hj h = absurd (cc)

-- The rest of the swaps after one.
apply_swaps-perm : (l : List (ℕ × ℕ)) (res ys : List Dst) → apply_swaps l res ≡ ok ys → Perm ys res
unfolding apply_swaps swap
apply_swaps-perm [] res ys h = let e : res ≡ ys = cc in rw e (Perm.refl ys)
apply_swaps-perm ((i, j) ∷ l) res ys h =
    go (swap i j res) (λ mid. swapped-perm i j res mid _ _ refl refl) (apply_swaps-perm l) h
  where
    go :
        (r : Outcome (List Dst))
        → ((mid : List Dst) → r ≡ ok mid → Perm mid res)
        → ((mid zs : List Dst) → apply_swaps l mid ≡ ok zs → Perm zs mid)
        → then_do r (apply_swaps l) ≡ ok ys
        → Perm ys res
    go (ok mid) first later e = Perm.trans (later mid ys e) (first mid refl)
    go (err d) first later e = absurd (cc)
    go panic first later e = absurd (cc)
    go pending first later e = absurd (cc)

pub shuffle-perm :
    (shuffle : Shuffle) (ds ys : List Dst) → shuffle_broadcast shuffle ds ≡ ok ys → Perm ys ds
unfolding shuffle_broadcast
shuffle-perm shuffle [] ys h = let e : [] ≡ ys = cc in rw e (Perm.refl ys)
shuffle-perm shuffle (d ∷ ds) ys h = apply_swaps-perm (shuffle (length (d ∷ ds))) (d ∷ ds) ys h

by_mode :
    (a b : Bool) (shuffle : Shuffle) (base res : List Dst)
    → (if a
        then ok (round_robin_broadcast base)
        else if b
        then shuffle_broadcast shuffle base
        else ok base)
      ≡ ok res
    → Perm res base
by_mode true b shuffle base res h =
    let e : round_robin_broadcast base ≡ res = cc in
    subst (λ l. Perm l base) e (round_robin-perm base)
by_mode false true shuffle base res h = shuffle-perm shuffle base res h
by_mode false false shuffle base res h = let e : base ≡ res = cc in rw e (Perm.refl res)

-- Whatever the mode, and whatever `rand.Shuffle` asks for, a broadcast that returns holds the
-- destinations of the base, each as often.
pub broadcast-perm :
    (s : BalancedSharding) (shuffle : Shuffle) (base res : List Dst)
    → s.base.broadcast shuffle ≡ ok base
    → broadcast s shuffle ≡ ok res
    → Perm res base
unfolding broadcast
broadcast-perm s shuffle base res hb h =
    by_mode (same s.mode mode_round_robin) (same s.mode mode_shuffle) shuffle base res (
      subst
        (λ r.
          then_do r (λ dsts.
            if same s.mode mode_round_robin
            then ok (round_robin_broadcast dsts)
            else if same s.mode mode_shuffle
            then shuffle_broadcast shuffle dsts
            else ok dsts)
          ≡ ok res)
        hb h)
