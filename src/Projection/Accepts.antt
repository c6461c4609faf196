-- ===== src/Projection/Accepts.antt =====
-- internal/projection/projection.go: the events that `Apply` accepts.
use mathlib.Core.Option.{IsSome}
use request_sudo.Base.{
  ◌≡◌, refl, true, Option, none, some, text_eq_refl, lookup-insert, insert, Bool-cases, arith, inl,
  inr, ◌⊎◌, is_empty,
}
use request_sudo.Core.{
  Status, approved, denied, expired, executing, executed, failed, revoked, Request,
}
use request_sudo.Events.{
  EventType, request_created, request_approved, request_denied, execution_succeeded,
  execution_failed, Event, ok, ◌>>=◌,
}
use request_sudo.Events.Json.{Json}
use request_sudo.Projection.{Snapshot, Projection, created, stamp, get, transition, apply_to, apply}
use request_sudo.Projection.Transitions.{
  Edge, approve, deny, expire, withdraw, revoke, start, succeed, fail, recover, get_in,
}

some_of {ℓ} : {A : Type ℓ} (o : Option A) → IsSome o → (a : A) × (o ≡ some a)
some_of none h = absurd h
some_of (some a) h = (a, refl)

module _ (J : Json) where
  -- What the details of an event must decode to for `Apply` to accept it.
  abbrev pub Decodes : EventType → Event → Type 0
  Decodes request_approved e = IsSome (J.unmarshal_approval e.details)
  Decodes request_denied e = IsSome (J.unmarshal_denial e.details)
  Decodes execution_succeeded e = IsSome (J.unmarshal_finished e.details)
  Decodes execution_failed e = (is_empty e.details ≡ true) ⊎ IsSome (J.unmarshal_finished e.details)
  Decodes _ e = Unit {0}

  Edge-transition :
      (type : EventType) (e : Event) (s : Snapshot) (from t : Status)
      → s.status ≡ from
      → Edge type from t
      → Decodes type e
      → (s' : Snapshot) × (transition J type e s ≡ ok s') × (s'.status ≡ t)
  unfolding transition
  Edge-transition _ e s _ _ at approve d =
      let (a, seen) = some_of (J.unmarshal_approval e.details) d in
      (record s { status = approved; approver = some a.approver }, ground arith, refl)
  Edge-transition _ e s _ _ at deny d =
      let (a, seen) = some_of (J.unmarshal_denial e.details) d in
      (
        record s { status = denied; approver = some a.approver; deny_reason = a.reason },
        ground arith,
        refl,
      )
  Edge-transition _ e s _ _ at expire d = (record s { status = expired }, ground arith, refl)
  Edge-transition _ e s _ _ at withdraw d = (record s { status = revoked }, ground arith, refl)
  Edge-transition _ e s _ _ at revoke d = (record s { status = revoked }, ground arith, refl)
  Edge-transition _ e s _ _ at start d = (record s { status = executing }, ground arith, refl)
  Edge-transition _ e s _ _ at succeed d =
      let (r, seen) = some_of (J.unmarshal_finished e.details) d in
      (record s { status = executed; execution = some r }, ground arith, refl)
  Edge-transition _ e s _ _ at fail (inl bare) = (record s { status = failed }, ground arith, refl)
  Edge-transition _ e s _ _ at fail (inr d) =
      let (r, seen) = some_of (J.unmarshal_finished e.details) d in
      elim (Bool-cases (is_empty e.details)) [
        | inl bare ↦ (record s { status = failed }, ground arith, refl)
        | inr full ↦ (record s { status = failed; execution = some r }, ground arith, refl)
      ]
  Edge-transition _ e s _ _ at recover d = (record s { status = failed }, ground arith, refl)

  apply_to-Edge :
      (type : EventType) (e : Event) (s : Snapshot) {a b : Status}
      → Edge type a b
      → apply_to J type e (some s) ≡ (transition J type e s >>= λ x. ok (stamp e x))
  unfolding apply_to
  apply_to-Edge _ e s approve = refl
  apply_to-Edge _ e s deny = refl
  apply_to-Edge _ e s expire = refl
  apply_to-Edge _ e s withdraw = refl
  apply_to-Edge _ e s revoke = refl
  apply_to-Edge _ e s start = refl
  apply_to-Edge _ e s succeed = refl
  apply_to-Edge _ e s fail = refl
  apply_to-Edge _ e s recover = refl

  apply_by :
      (p : Projection) (e : Event) (s : Snapshot)
      → apply_to J e.type e (get p e.request_id) ≡ ok s
      → apply J p e ≡ ok (record { requests = insert e.request_id s p.requests })
  unfolding apply
  apply_by p e s h = rw h

  -- `Apply` accepts every event that follows an edge of the state machine and whose details decode,
  -- and the request then has the status at the edge's end.
  pub Edge-apply :
      (p : Projection) (e : Event) (s : Snapshot) (t : Status)
      → get p e.request_id ≡ some s
      → Edge e.type s.status t
      → Decodes e.type e
      → (p' : Projection) × (s' : Snapshot) × (apply J p e ≡ ok p')
        × (get p' e.request_id ≡ some s')
        × (s'.status ≡ t)
  Edge-apply p e s t there edge d =
      let (x, good, ends) = Edge-transition e.type e s s.status t refl edge d in
      let accepted : apply_to J e.type e (get p e.request_id) ≡ ok (stamp e x) =
        rw there (rw (apply_to-Edge e.type e s edge, good)) in
      (
        record { requests = insert e.request_id (stamp e x) p.requests },
        stamp e x,
        apply_by p e (stamp e x) accepted,
        rw (get_in, lookup-insert, text_eq_refl),
        ends,
      )

  -- A `request_created` event for an id that is new is accepted.
  pub created-apply :
      (p : Projection) (e : Event) (r : Request)
      → e.type ≡ request_created
      → get p e.request_id ≡ none
      → J.unmarshal_created e.details ≡ some r
      → (p' : Projection) × (apply J p e ≡ ok p')
  created-apply p e r type fresh decoded = (
    record { requests = insert e.request_id (created e r) p.requests },
    apply_by p e (created e r) (rw (type, fresh) (unfold apply_to in rw decoded)),
  )
