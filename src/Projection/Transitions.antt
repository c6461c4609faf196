-- ===== src/Projection/Transitions.antt =====
-- internal/projection/projection.go: `Apply` against the state machine of STATE_MACHINE.md.
use mathlib.Core.Bool.{false≢true}
use request_sudo.Base.{
  ◌≡◌, ◌≢◌, refl, ap, sym, ◌∙◌, true, false, Option, none, some, Text, text_eq, text_eq_iff,
  text_eq_refl, lookup-insert, lookup, Map, insert, subst, arith, inl, inr, if◌then◌else◌,
}
use request_sudo.Core.{
  Status, pending, approved, denied, expired, executing, executed, failed, revoked, terminal,
  Request,
}
use request_sudo.Events.{
  EventType, request_created, request_approved, request_denied, request_expired, request_revoked,
  execution_started, execution_succeeded, execution_failed, recovery_marked_failed, Event, Failure,
  ok, err, ◌>>=◌, Result-cases, >>=-eq-ok, ok-injective, or_fail, decode_details,
}
use request_sudo.Events.Json.{Json}
use request_sudo.Projection.{Snapshot, Projection, created, stamp, get, transition, apply_to, apply}

-- STATE_MACHINE.md, sections 2 and 8: which event takes a request from where to where.
pub data Edge : EventType → Status → Status → Type 0 where
  approve : Edge request_approved pending approved
  deny : Edge request_denied pending denied
  expire : Edge request_expired pending expired
  withdraw : Edge request_revoked pending revoked
  revoke : Edge request_revoked approved revoked
  start : Edge execution_started approved executing
  succeed : Edge execution_succeeded executing executed
  fail : Edge execution_failed executing failed
  recover : Edge recovery_marked_failed executing failed

ruleset edges = (approve, deny, expire, withdraw, revoke, start, succeed, fail, recover)

-- No edge leaves a terminal status.
Edge-terminal : {type : EventType} {s t : Status} → Edge type s t → terminal s ≡ false
unfolding terminal
Edge-terminal approve = refl
Edge-terminal deny = refl
Edge-terminal expire = refl
Edge-terminal withdraw = refl
Edge-terminal revoke = refl
Edge-terminal start = refl
Edge-terminal succeed = refl
Edge-terminal fail = refl
Edge-terminal recover = refl

other_key {ℓ} :
    {A : Type ℓ} (k j : Text) (a : A) (o : Option A)
    → k ≢ j
    → (if text_eq k j then some a else o) ≡ o
other_key k j a o differ = ground (arith, text_eq_iff k j)

pub get_in : (m : Map Snapshot) (id : Text) → get (record { requests = m }) id ≡ lookup id m
unfolding get
get_in m id = refl

module _ (J : Json) where
  transition-Edge :
      (type : EventType) (e : Event) (s s' : Snapshot)
      → transition J type e s ≡ ok s'
      → Edge type s.status s'.status × (s'.request ≡ s.request)
  unfolding transition
  transition-Edge request_approved e s s' h = grind (arith, edges)
  transition-Edge type e s s' h = grind (arith, edges)

  -- What `apply` has put in place of the event's request, and that it touched nothing else.
  pub apply_inv :
      (p p' : Projection) (e : Event)
      → apply J p e ≡ ok p'
      → (s' : Snapshot) × (apply_to J e.type e (get p e.request_id) ≡ ok s')
        × ((id : Text) → get p' id ≡ (if text_eq e.request_id id then some s' else get p id))
  unfolding apply
  apply_inv p p' e h =
      let (s', good, put) =
        >>=-eq-ok (apply_to J e.type e (get p e.request_id))
          (λ snap. ok (record { requests = insert e.request_id snap p.requests })) h in
      (
        s',
        good,
        λ id.
            ap (λ q. get q id) (sym (ok-injective put))
            ∙ lookup-insert e.request_id id s' p.requests,
      )

  -- How an event changes the snapshot of its own request.
  pub data Lifecycle (e : Event) : Option Snapshot → Snapshot → Type 0 where
    opened :
        (r : Request)
        → e.type ≡ request_created
        → J.unmarshal_created e.details ≡ some r
        → Lifecycle e none (created e r)
    moved :
        (s s' : Snapshot)
        → Edge e.type s.status s'.status
        → s'.request ≡ s.request
        → Lifecycle e (some s) s'

  moved_by :
      (type : EventType) (e : Event) (s s' : Snapshot)
      → e.type ≡ type
      → (transition J type e s >>= λ x. ok (stamp e x)) ≡ ok s'
      → Lifecycle e (some s) s'
  moved_by type e s s' t h =
      let (x, good, made) = >>=-eq-ok (transition J type e s) (λ x. ok (stamp e x)) h in
      let (edge, same) = transition-Edge type e s x good in
      subst (Lifecycle e (some s)) (ok-injective made)
        (moved s (stamp e x) (subst (λ k. Edge k s.status x.status) (sym t) edge) same)

  apply_to-Lifecycle :
      (type : EventType) (e : Event) (o : Option Snapshot) (s' : Snapshot)
      → e.type ≡ type
      → apply_to J type e o ≡ ok s'
      → Lifecycle e o s'
  unfolding apply_to
  apply_to-Lifecycle request_created e none s' t h =
      let (r, seen, made) =
        >>=-eq-ok (or_fail decode_details (J.unmarshal_created e.details)) (λ r. ok (created e r))
          h in
      subst (Lifecycle e none) (ok-injective made) (opened r t (ground arith))
  apply_to-Lifecycle request_created e (some s) s' t h = cc
  apply_to-Lifecycle type e none s' t h = cc
  apply_to-Lifecycle type e (some s) s' t h = moved_by type e s s' t h

  no_move :
      (e : Event) (o : Option Snapshot) (s' s : Snapshot)
      → Lifecycle e o s'
      → o ≡ some s
      → terminal s.status ≡ true
      → ⊥
  no_move e _ _ s (opened r t d) there over = cc
  no_move e _ _ s (moved s₀ s' edge same) there over =
      let same_snap : s₀ ≡ s = cc in
      let blocked : terminal s₀.status ≡ false = Edge-terminal edge in
      false≢true (sym blocked ∙ ap (λ (x : Snapshot). terminal x.status) same_snap ∙ over)

  -- `Apply`, where it accepts an event, opens a request that was not there with the request that the
  -- details decode to, or moves the event's request along an edge of the state machine and keeps
  -- its frozen request; the snapshots of all other requests stay as they were.
  pub apply-Lifecycle :
      (p p' : Projection) (e : Event)
      → apply J p e ≡ ok p'
      → (s' : Snapshot) × (get p' e.request_id ≡ some s')
        × Lifecycle e (get p e.request_id) s'
        × ((id : Text) → e.request_id ≢ id → get p' id ≡ get p id)
  apply-Lifecycle p p' e h =
      let (s', good, at) = apply_inv p p' e h in
      (
        s',
        at e.request_id ∙ rw text_eq_refl,
        apply_to-Lifecycle e.type e (get p e.request_id) s' refl good,
        λ id differ. at id ∙ other_key e.request_id id s' (get p id) differ,
      )

  -- An event for a request that has reached a terminal status is refused, whatever the event is.
  pub apply-terminal :
      (p : Projection) (e : Event) (s : Snapshot)
      → get p e.request_id ≡ some s
      → terminal s.status ≡ true
      → (x : Failure) × (apply J p e ≡ err x)
  apply-terminal p e s there over = elim (Result-cases (apply J p e)) [
    | inl refused ↦ refused
    | inr (p', h) ↦
        let (s', now, life, rest) = apply-Lifecycle p p' e h in
        absurd (no_move e (get p e.request_id) s' s life there over)
  ]
