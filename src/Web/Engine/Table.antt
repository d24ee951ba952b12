-- ===== src/Web/Engine/Table.antt =====
-- Routes that are handled one after the other, as a table: each is found again, behind the
-- middleware that was used before.
use hermet.Base.{
  ◌≡◌, refl, sym, ◌∙◌, ap, String, true, Option, none, some, List, [], ◌∷◌, same_iff, if◌then◌else◌,
  ok, Bool-cases, inl, inr, arith,
}
use hermet.Web.Engine.{
  Handler, Middleware, chain, Route, full_path, is_clean, Gin, is_for, Documented, handle_all,
}

module _ {B S P : Type 0} where
  -- The route of a list for a method and a path.
  abbrev pub entry : List (Route B S P) → String → String → Option (Route B S P)
  entry [] m p = none
  entry (r ∷ rs) m p = if is_for r m p then some r else entry rs m p

  -- No route stands twice, and each path is one that gin takes as it is.
  abbrev pub Fresh : List (Route B S P) → Type 0
  Fresh [] = Unit
  Fresh (r ∷ rs) =
      (is_clean r.group r.relative ≡ true)
      × (entry rs r.method (full_path r.group r.relative) ≡ none)
      × Fresh rs

  -- What a request finds: the chain of a route of the list, or what was found before.
  abbrev pub found :
      List (Middleware B S P)
      → Option (Route B S P)
      → Option (Handler B S P)
      → Option (Handler B S P)
  found ms none before = before
  found ms (some r) before = some (chain ms r.handler)

  is_for-own : (r : Route B S P) → is_for r r.method (full_path r.group r.relative) ≡ true
  is_for-own r =
      rw ((same_iff r.method r.method).1 refl)
        ((same_iff (full_path r.group r.relative) (full_path r.group r.relative)).1 refl)

  is_for-key :
      (r : Route B S P) (m p : String)
      → is_for r m p ≡ true
      → (r.method ≡ m) × (full_path r.group r.relative ≡ p)
  is_for-key r m p h = (
    (same_iff r.method m).0 (ground arith),
    (same_iff (full_path r.group r.relative) p).0 (ground arith),
  )

  -- A path of the first route is not one of a later route.
  not_later :
      (r : Route B S P) (rs : List (Route B S P)) (m p : String)
      → Fresh (r ∷ rs)
      → is_for r m p ≡ true
      → entry rs m p ≡ none
  not_later r rs m p (_, fresh, _) h =
      let (em, ep) = is_for-key r m p h in rw (sym em, sym ep) fresh

  module _ {E : Type 0} (gin : Gin B S P E) (doc : Documented gin) where
    abbrev pub Free : E → List (Route B S P) → Type 0
    Free e rs = (m p : String) (r : Route B S P) → entry rs m p ≡ some r → gin.find e m p ≡ none

    abbrev Handled : E → List (Route B S P) → Type 0
    Handled e rs =
        (e' : E) × (handle_all gin rs e ≡ (ok tt, e'))
        × (gin.used e' ≡ gin.used e)
        × ((m p : String) → gin.find e' m p ≡ found (gin.used e) (entry rs m p) (gin.find e m p))

    still-Free :
        (r : Route B S P) (rs : List (Route B S P)) (e e₁ : E)
        → Fresh (r ∷ rs)
        → Free e (r ∷ rs)
        → ((m p : String)
            → gin.find e₁ m p
              ≡ (if is_for r m p then some (chain (gin.used e) r.handler) else gin.find e m p))
        → Free e₁ rs
    still-Free r rs e e₁ fresh free finds m p r' at = elim (Bool-cases (is_for r m p)) [
      | inl hit ↦ let k = not_later r rs m p fresh hit in cc
      | inr miss ↦ finds m p ∙ rw miss (free m p r' (rw miss at))
    ]

    later_or_first :
        (r : Route B S P) (rs : List (Route B S P)) (e : E) (m p : String)
        (x : Option (Handler B S P))
        → Fresh (r ∷ rs)
        → x ≡ (if is_for r m p then some (chain (gin.used e) r.handler) else gin.find e m p)
        → found (gin.used e) (entry rs m p) x
          ≡ found (gin.used e) (entry (r ∷ rs) m p) (gin.find e m p)
    later_or_first r rs e m p x fresh h = elim (Bool-cases (is_for r m p)) [
      | inl hit ↦ rw (not_later r rs m p fresh hit, hit) (rw hit at h)
      | inr miss ↦ rw miss (ap (found (gin.used e) (entry rs m p)) (rw miss at h))
    ]

    -- Handling the routes of a list that has no route twice, none of which is there yet, succeeds,
    -- and then each of them is served by the middleware used before and its handler, and any other
    -- path as before.
    pub handle_all-Handled : (rs : List (Route B S P)) (e : E) → Fresh rs → Free e rs → Handled e rs
    unfolding handle_all
    handle_all-Handled [] e fresh free = (e, refl, refl, λ m p. refl)
    handle_all-Handled (r ∷ rs) e fresh free =
        let (e₁, done, same_used, finds) =
          doc.handle_ok r e fresh.0
            (free r.method (full_path r.group r.relative) r (rw (is_for-own r) refl)) in
        let (e', rest, used, finds') =
          handle_all-Handled rs e₁ fresh.2 (still-Free r rs e e₁ fresh free finds) in
        (
          e',
          rw done rest,
          used ∙ same_used,
          λ m p.
              finds' m p
              ∙ ap (λ u. found u (entry rs m p) (gin.find e₁ m p)) same_used
              ∙ later_or_first r rs e m p (gin.find e₁ m p) fresh (finds m p),
        )
