-- ===== src/Projection/Rebuild.antt =====
-- internal/projection/projection.go: `Rebuild` of a history in two parts.
use request_sudo.Base.{◌≡◌, ap, ◌∙◌, List, [], ◌∷◌, ◌++◌}
use request_sudo.Events.{Event, ok, >>=-eq-ok, ok-injective}
use request_sudo.Events.Json.{Json}
use request_sudo.Projection.{Projection, apply, rebuild_from, rebuild, new}

module _ (J : Json) where
  pub rebuild_from-append :
      (p q r : Projection) (es fs : List Event)
      → rebuild_from J p es ≡ ok q
      → rebuild_from J q fs ≡ ok r
      → rebuild_from J p (es ++ fs) ≡ ok r
  unfolding rebuild_from
  rebuild_from-append p q r [] fs first second =
      ap (λ x. rebuild_from J x fs) (ok-injective first) ∙ second
  rebuild_from-append p q r (e ∷ es) fs first second =
      let (t, now, rest) = >>=-eq-ok (apply J p e) (λ t. rebuild_from J t es) first in
      rw now (rebuild_from-append t q r es fs rest second)

  pub rebuild-snoc :
      (h : List Event) (p q : Projection) (e : Event)
      → rebuild J h ≡ ok p
      → apply J p e ≡ ok q
      → rebuild J (h ++ e ∷ []) ≡ ok q
  unfolding rebuild rebuild_from
  rebuild-snoc h p q e built now = rebuild_from-append new p q h (e ∷ []) built (rw now)
