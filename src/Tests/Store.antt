-- ===== src/Tests/Store.antt =====
-- A database in memory, for the data access objects: what gorm documents holds of it.
use mathlib.Core.List.Perm
use hermet.Base.{
  ℕ, ◌≡◌, refl, sym, ap, ◌∙◌, String, ◌&&◌, same, same_refl, ◌==◌, if◌then◌else◌, List, [], ◌∷◌,
  ◌++◌, select, sentinel, gorm_record_not_found, Outcome, ok, err, arith,
}
use hermet.Dao.Gorm.{Db, Gorm, Reliable}

-- A counter, and the rows of each table.
abbrev pub State : Type 0 → Type 0
State R = ℕ × (Db → String → List R)

module _ {R : Type 0} where
  abbrev first_of : List R → State R → Outcome R × State R
  first_of [] s = (err (sentinel gorm_record_not_found), s)
  first_of (r ∷ l) s = (ok r, s)

  abbrev added : Db → String → R → State R → State R
  added db tb r (n, rows) =
      (n, λ d t. if d == db && same t tb then rows d t ++ r ∷ [] else rows d t)

  abbrev pub in_memory : Gorm (State R) R
  in_memory = record {
    create = λ db tb r s. (ok r, added db tb r s);
    first = λ db tb p s. first_of (select p (s.1 db tb)) s;
    find = λ db tb p s. (ok (select p (s.1 db tb)), s);
    update = λ db tb p f s. (ok tt, s);
  }

  add_here :
      (db : Db) (tb : String) (r : R) (rows : Db → String → List R)
      → (if db == db && same tb tb then rows db tb ++ r ∷ [] else rows db tb) ≡ rows db tb ++ r ∷ []
  add_here db tb r rows = rw (same_refl tb) (ground arith)

  first_hit :
      (l : List R) (r : R) (s s' : State R)
      → first_of l s ≡ (ok r, s')
      → (before : List R) × (after : List R) × (l ≡ before ++ r ∷ after) × (s' ≡ s)
  first_hit [] r s s' h = cc
  first_hit (x ∷ l) r s s' h = ([], l, cc, cc)

  first_miss :
      (l : List R) (s s' : State R)
      → first_of l s ≡ (err (sentinel gorm_record_not_found), s')
      → (l ≡ []) × (s' ≡ s)
  first_miss [] s s' h = (refl, cc)
  first_miss (x ∷ l) s s' h = cc

  pub in_memory-Reliable : Reliable in_memory
  in_memory-Reliable = record {
    rows = λ s. s.1;
    create_adds = λ db tb r r2 s s2 h. (cc, ap (λ p. p.1.1 db tb) (sym h) ∙ add_here db tb r s.1);
    first_finds = λ db tb p r s s' h. first_hit (select p (s.1 db tb)) r s s' h;
    first_misses = λ db tb p s s' h. first_miss (select p (s.1 db tb)) s s' h;
    find_finds =
        λ db tb p l s s' h. let same : l ≡ select p (s.1 db tb) = cc in (rw same (Perm.refl _), cc);
  }
