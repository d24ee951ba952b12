-- ===== src/App/Config.antt =====
-- cmd/main.go: the configuration is read from one file and then merged from five others, in order;
-- viper is a parameter.
use Prim.Native.String
use hermet.Base.{
  ap, ◌∙◌, subst, lift, ◌≡◌, ◌⊎◌, inl, inr, refl, sym, String, List, [], ◌∷◌, ◌++◌, Error, wrap,
  Outcome, ok, err, panic, pending, Exec, check, return, fail, ◌>>=◌, resume,
}

-- viper's state, and the calls of it: the path and the type of the files, the name of the next one,
-- and reading or merging it.
pub record Viper (V : Type 0) : Type 0 where
  pub add_config_path : String → V → V
  pub set_config_type : String → V → V
  pub set_config_name : String → V → V
  pub read_in_config : Exec V (Unit {0})
  pub merge_in_config : Exec V (Unit {0})

abbrev pub sub_config_names : List String
sub_config_names = "redis" ∷ "db" ∷ "mongodb" ∷ "kafka" ∷ "sharding" ∷ []

-- The error for one of the merged files, with its name in the text.
abbrev pub merge_error : String → Error → Error
merge_error name e = wrap (String.◌++◌ "failed to merge " (String.◌++◌ name " config: %w")) e

abbrev pub base_error : Error → Error
base_error e = wrap "failed to read base config: %w" e

abbrev pub apply : {V : Type 0} → (V → V) → Exec V (Unit {0})
apply f v = (ok tt, f v)

module _ {V : Type 0} (viper : Viper V) where
  abbrev pub merge_sub : String → Exec V (Unit {0})
  merge_sub name v = viper.merge_in_config (viper.set_config_name name v)

  unfoldable pub merge_all : List String → Exec V (Unit {0})
  merge_all [] = return tt
  merge_all (name ∷ names) =
      check (merge_sub name) (λ e. fail (merge_error name e)) (λ _. merge_all names)

  unfoldable pub load_config : Exec V (Unit {0})
  load_config = do
    path ← apply (viper.add_config_path "config")
    type ← apply (viper.set_config_type "yaml")
    name ← apply (viper.set_config_name "base")
    check viper.read_in_config (λ e. fail (base_error e)) (λ _. merge_all sub_config_names)

  -- `main`: a configuration that does not load ends the program before anything is provided.
  unfoldable pub main : Exec V (Unit {0}) → Exec V (Unit {0})
  main run = check load_config (λ e. lift panic) (λ _. run)

  -- The state in which the base file is read.
  abbrev pub prepared : V → V
  prepared v =
      viper.set_config_name "base" (viper.set_config_type "yaml" (viper.add_config_path "config" v))

  -- Files that were merged, one after the other.
  pub data Merged : V → List String → V → Type 0 where
    none_left : (v : V) → Merged v [] v
    merged :
        {v v' v'' : V} (name : String) {names : List String}
        → merge_sub name v ≡ (ok tt, v')
        → Merged v' names v''
        → Merged v (name ∷ names) v''

  -- How merging the files of a list ended, where it returned.
  pub data MergedUpTo (v v' : V) (names : List String) : Outcome (Unit {0}) → Type 0 where
    all_merged : Merged v names v' → MergedUpTo v v' names (ok tt)
    first_failing :
        (before after : List String) (name : String) (e : Error) (v₁ : V)
        → names ≡ before ++ name ∷ after
        → Merged v before v₁
        → merge_sub name v₁ ≡ (err e, v')
        → MergedUpTo v v' names (err (merge_error name e))
    panicked : MergedUpTo v v' names panic
    waiting : MergedUpTo v v' names pending

  one_more :
      (v v₁ v' : V) (name : String) (names : List String) (r : Outcome (Unit {0}))
      → merge_sub name v ≡ (ok tt, v₁)
      → MergedUpTo v₁ v' names r
      → MergedUpTo v v' (name ∷ names) r
  one_more v v₁ v' name names (ok tt) h (all_merged m) = all_merged (merged name h m)
  one_more v v₁ v' name names (err x) h (first_failing before after n e v₂ at m f) =
      first_failing (name ∷ before) after n e v₂ (ap (λ l. name ∷ l) at) (merged name h m) f
  one_more v v₁ v' name names panic h panicked = panicked
  one_more v v₁ v' name names pending h waiting = waiting

  after_merge :
      (o : Outcome (Unit {0})) (name : String) (names : List String) (v v₁ v' : V)
      (r : Outcome (Unit {0}))
      → ((w : V) → merge_all names w ≡ (r, v') → MergedUpTo w v' names r)
      → merge_sub name v ≡ (o, v₁)
      → resume o (λ e. fail (merge_error name e)) (λ _. merge_all names) v₁ ≡ (r, v')
      → MergedUpTo v v' (name ∷ names) r
  after_merge (ok t) name names v v₁ v' r more h k = one_more v v₁ v' name names r h (more v₁ k)
  after_merge (err e) name names v v₁ v' r more h k =
      subst (MergedUpTo v v' (name ∷ names)) (ap (λ x. x.0) k)
        (first_failing [] names name e v refl (none_left v) (h ∙ ap (λ x. (err e, x.1)) k))
  after_merge panic name names v v₁ v' r more h k =
      subst (MergedUpTo v v' (name ∷ names)) (ap (λ x. x.0) k) panicked
  after_merge pending name names v v₁ v' r more h k =
      subst (MergedUpTo v v' (name ∷ names)) (ap (λ x. x.0) k) waiting

  merge_all-MergedUpTo :
      (names : List String) (v v' : V) (r : Outcome (Unit {0}))
      → merge_all names v ≡ (r, v')
      → MergedUpTo v v' names r
  unfolding merge_all
  merge_all-MergedUpTo [] v v' r h =
      subst (MergedUpTo v v' []) (ap (λ x. x.0) h)
        (all_merged (subst (Merged v []) (ap (λ x. x.1) h) (none_left v)))
  merge_all-MergedUpTo (name ∷ names) v v' r h =
      after_merge (merge_sub name v).0 name names v (merge_sub name v).1 v' r
        (λ w k. merge_all-MergedUpTo names w v' r k) refl h

  -- How the configuration was loaded, where this returned.
  pub data Loading (v v' : V) (r : Outcome (Unit {0})) : Type 0 where
    no_base :
        (e : Error)
        → viper.read_in_config (prepared v) ≡ (err e, v')
        → r ≡ err (base_error e)
        → Loading v v' r
    with_base :
        (v₁ : V)
        → viper.read_in_config (prepared v) ≡ (ok tt, v₁)
        → MergedUpTo v₁ v' sub_config_names r
        → Loading v v' r
    base_ended : (r ≡ panic) ⊎ (r ≡ pending) → Loading v v' r

  after_base :
      (o : Outcome (Unit {0})) (v v₁ v' : V) (r : Outcome (Unit {0}))
      → viper.read_in_config (prepared v) ≡ (o, v₁)
      → resume o (λ e. fail (base_error e)) (λ _. merge_all sub_config_names) v₁ ≡ (r, v')
      → Loading v v' r
  after_base (ok t) v v₁ v' r h k = with_base v₁ h (merge_all-MergedUpTo sub_config_names v₁ v' r k)
  after_base (err e) v v₁ v' r h k =
      no_base e (h ∙ ap (λ x. (err e, x.1)) k) (sym (ap (λ x. x.0) k))
  after_base panic v v₁ v' r h k = base_ended (inl (sym (ap (λ x. x.0) k)))
  after_base pending v v₁ v' r h k = base_ended (inr (sym (ap (λ x. x.0) k)))

  pub load_config-Loading :
      (v v' : V) (r : Outcome (Unit {0})) → load_config v ≡ (r, v') → Loading v v' r
  unfolding load_config
  load_config-Loading v v' r h =
      after_base (viper.read_in_config (prepared v)).0 v (viper.read_in_config (prepared v)).1 v' r
        refl h
