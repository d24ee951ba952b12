-- ===== src/Base/Tests.antt =====
-- Boolean tests on native numbers and texts, and the conditional.
use Prim.Native.Nat.{ℕ, compare, Ordering}
use Prim.Native.String.{String}
use mathlib.Core.Path.{◌≡◌, refl, sym, ◌∙◌}
use mathlib.Core.Logic.{◌↔◌, ◌⊎◌, inl, inr}
use mathlib.Core.Bool.{Bool, true, false}
use mathlib.Core.Option.{Option, none, some}
use text.Mathlib.Text
use text.Mathlib.TextEquality.{eq_iff}

infix 50 ◌==◌
abbrev pub ◌==◌ : ℕ → ℕ → Bool
a == b = elim (compare a b) [ Ordering.eq ↦ true | _ ↦ false ]

abbrev pub ltb : ℕ → ℕ → Bool
ltb a b = elim (compare a b) [ Ordering.lt ↦ true | _ ↦ false ]

abbrev pub leb : ℕ → ℕ → Bool
leb a b = elim (compare a b) [ Ordering.gt ↦ false | _ ↦ true ]

-- Equality of texts.
abbrev pub same : String → String → Bool
same s t = Text.◌==◌ s t

pub same_iff : (s t : String) → (same s t ≡ true) ↔ (s ≡ t)
same_iff = eq_iff

pub same_refl : (s : String) → same s s ≡ true
same_refl s = (eq_iff s s).1 refl

pub same-ne : {s t : String} → same s t ≡ false → s ≡ t → ⊥
same-ne {s} {t} e k = let f = sym e ∙ (eq_iff s t).1 k in cc

not_same : (b : Bool) {s t : String} → same s t ≡ b → (s ≡ t → ⊥) → b ≡ false
not_same true {s} {t} e ne = absurd (ne ((eq_iff s t).0 e))
not_same false e ne = refl

pub ne-same : {s t : String} → (s ≡ t → ⊥) → same s t ≡ false
ne-same ne = not_same _ refl ne

infix 1 if◌then◌else◌
abbrev pub if◌then◌else◌ {ℓ} : {A : Type ℓ} → Bool → A → A → A
if true then x else y = x
if false then x else y = y

pub Bool-cases : (b : Bool) → (b ≡ true) ⊎ (b ≡ false)
Bool-cases true = inl refl
Bool-cases false = inr refl

pub Option-cases {ℓ} : {A : Type ℓ} (o : Option A) → (o ≡ none) ⊎ ((a : A) × (o ≡ some a))
Option-cases none = inl refl
Option-cases (some a) = inr (a, refl)
