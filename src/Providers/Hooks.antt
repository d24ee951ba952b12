-- ===== src/Providers/Hooks.antt =====
-- The life cycle of fx, as the providers and the application use it: hooks that are put behind
-- those that are there.
use hermet.Base.{Option, List, [], ◌∷◌, ◌++◌, ok, Exec, check, fail, return, wrap, String}

-- What runs when the program starts and when it stops; `none` is a nil function.
pub record Hook (S : Type 0) : Type 0 where
  pub on_start : Option (Exec S (Unit {0}))
  pub on_stop : Option (Exec S (Unit {0}))

abbrev pub Lifecycle : Type 0 → Type 0
Lifecycle S = List (Hook S)

unfoldable pub append : {S : Type 0} → Hook S → Exec (Lifecycle S) (Unit {0})
append hook hooks = (ok tt, hooks ++ hook ∷ [])

-- `if err := m(); err != nil { log; return fmt.Errorf(text, err) }; return nil`
abbrev pub or_wrap : {S : Type 0} → String → Exec S (Unit {0}) → Exec S (Unit {0})
or_wrap text m = check m (λ e. fail (wrap text e)) (λ _. return tt)

-- `if err := m(); err != nil { return err }; log; return nil`
abbrev pub or_fail : {S : Type 0} → Exec S (Unit {0}) → Exec S (Unit {0})
or_fail m = check m fail (λ _. return tt)
