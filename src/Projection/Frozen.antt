-- ===== src/Projection/Frozen.antt =====
-- internal/projection/projection.go: the frozen request and the terminal statuses.
use mathlib.Core.Bool.{false≢true}
use request_sudo.Base.{
  ◌≡◌, ◌≢◌, refl, ap, sym, ◌∙◌, true, List, [], ◌∷◌, Option, some, Text, text_eq, text_eq_iff,
  arith, inl, inr, Bool-cases,
}
use request_sudo.Core.{terminal}
use request_sudo.Events.{Event, ok, >>=-eq-ok, ok-injective}
use request_sudo.Events.Json.{Json}
use request_sudo.Projection.{Snapshot, Projection, get, apply, rebuild_from}
use request_sudo.Projection.Counts.{count_events}
use request_sudo.Projection.Transitions.{Lifecycle, opened, moved, apply-Lifecycle, apply-terminal}

module _ (J : Json) where
  -- After an accepted event a request that was there has the request it had.
  kept_request :
      (e : Event) (o : Option Snapshot) (s s' : Snapshot)
      → Lifecycle J e o s'
      → o ≡ some s
      → s'.request ≡ s.request
  kept_request e _ s _ (opened r t d) there = cc
  kept_request e _ s s' (moved s₀ s₁ edge same) there =
      same ∙ ap (λ (x : Snapshot). x.request) (some_eq there)
    where
      some_eq : some s₀ ≡ some s → s₀ ≡ s
      some_eq k = cc

  apply_keeps_request :
      (p p' : Projection) (e : Event) (id : Text) (s : Snapshot)
      → apply J p e ≡ ok p'
      → get p id ≡ some s
      → (s' : Snapshot) × (get p' id ≡ some s') × (s'.request ≡ s.request)
  apply_keeps_request p p' e id s h there =
      let (s', now, life, rest) = apply-Lifecycle J p p' e h in
      elim (Bool-cases (text_eq e.request_id id)) [
        | inl mine ↦
            let same : e.request_id ≡ id = (text_eq_iff e.request_id id).0 mine in
            (
              s',
              ap (get p') (sym same) ∙ now,
              kept_request e (get p e.request_id) s s' life (ap (get p) same ∙ there),
            )
        | inr other ↦ (
          s,
          rest id (λ same. false≢true (sym other ∙ (text_eq_iff e.request_id id).1 same)) ∙ there,
          refl,
        )
      ]

  -- Replaying more events, once a request is there, never changes what was asked for: the argv, the
  -- frozen execution context, the requester and the digest are those of its creation.
  pub rebuild_from_keeps_request :
      (p p' : Projection) (h : List Event) (id : Text) (s : Snapshot)
      → rebuild_from J p h ≡ ok p'
      → get p id ≡ some s
      → (s' : Snapshot) × (get p' id ≡ some s') × (s'.request ≡ s.request)
  unfolding rebuild_from
  rebuild_from_keeps_request p p' [] id s h there =
      (s, ap (λ q. get q id) (sym (ok-injective h)) ∙ there, refl)
  rebuild_from_keeps_request p p' (e ∷ es) id s h there =
      let (q, first, rest) = >>=-eq-ok (apply J p e) (λ q. rebuild_from J q es) h in
      let (s₁, there₁, same₁) = apply_keeps_request p q e id s first there in
      let (s', there', same') = rebuild_from_keeps_request q p' es id s₁ rest there₁ in
      (s', there', same' ∙ same₁)

  refused :
      (k id : Text)
      → k ≡ id
      → (p : Projection) (e : Event) (s : Snapshot) {p' : Projection} → apply J p e ≡ ok p'
      → get p id ≡ some s
      → terminal s.status ≡ true
      → e.request_id ≡ k
      → ⊥
  refused k id same p e s h there over at =
      let (x, bad) = apply-terminal J p e s (ap (get p) (at ∙ same) ∙ there) over in cc

  apply_keeps_terminal :
      (p p' : Projection) (e : Event) (id : Text) (s : Snapshot)
      → apply J p e ≡ ok p'
      → get p id ≡ some s
      → terminal s.status ≡ true
      → (e.request_id ≢ id) × (get p' id ≡ some s)
  apply_keeps_terminal p p' e id s h there over =
      let (s', now, life, rest) = apply-Lifecycle J p p' e h in
      let differ : e.request_id ≢ id =
        λ same. refused e.request_id id same p e s h there over refl in
      (differ, rest id differ ∙ there)

  -- Once a request is terminal, no accepted history has one more event about it, and its snapshot
  -- stays as it is.
  pub rebuild_from_keeps_terminal :
      (p p' : Projection) (h : List Event) (id : Text) (s : Snapshot)
      → rebuild_from J p h ≡ ok p'
      → get p id ≡ some s
      → terminal s.status ≡ true
      → (count_events (λ _. true) id h ≡ 0) × (get p' id ≡ some s)
  unfolding rebuild_from count_events
  rebuild_from_keeps_terminal p p' [] id s h there over =
      (refl, ap (λ q. get q id) (sym (ok-injective h)) ∙ there)
  rebuild_from_keeps_terminal p p' (e ∷ es) id s h there over =
      let (q, first, rest) = >>=-eq-ok (apply J p e) (λ q. rebuild_from J q es) h in
      let (differ, still) = apply_keeps_terminal p q e id s first there over in
      let (none_left, kept) = rebuild_from_keeps_terminal q p' es id s rest still over in
      (ground (arith, text_eq_iff e.request_id id, none_left), kept)
