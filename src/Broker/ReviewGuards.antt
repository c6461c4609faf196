-- ===== src/Broker/ReviewGuards.antt =====
-- internal/broker/service.go: the guards of `Approve` and `Deny`.
use request_sudo.Base.{
  ◌<◌, ◌≡◌, refl, ap, sym, subst, ◌∙◌, Option, none, some, Text, inl, inr, ◌⊎◌, Bool-cases,
}
use request_sudo.Core.{pending}
use request_sudo.Events.{EventType, request_approved, request_denied, Event}
use request_sudo.Events.Json.{Json}
use request_sudo.Projection.{Snapshot, Projection, get, is_pending}
use request_sudo.Protocol
use request_sudo.Protocol.{Message, Response}
use request_sudo.Broker.State.{Service, pure, ◌>>=◌}
use request_sudo.Broker.Requests.{Env, ReviewInput, commit_details, reply, validate_approver}
use request_sudo.Broker.Review.{approve_valid, approve_found, approve, deny_valid, deny_found, deny}
use request_sudo.Broker.Effects.{Moves, stays, Expires}
use request_sudo.Broker.Guards.{
  commit_details-Moves, then_pure, reply_same, section-Moves, is_pending_iff,
}

module _ (J : Json) where
  -- The review event of an operation: the request waits, is not expired, and the approver is another
  -- identity than the requester.
  pub record Reviews (type : EventType) (details : Option Text) (env : Env) (input : ReviewInput)
      (p : Projection) (e : Event) : Type 0 where
    pub type_is : e.type ≡ type
    pub mine : e.request_id ≡ input.request_id
    pub actor : e.actor ≡ input.approver
    pub details_are : details ≡ some e.details
    pub snap : Snapshot
    pub there : get p input.request_id ≡ some snap
    pub waiting : snap.status ≡ pending
    pub in_time : env.now < snap.request.expires_at
    pub another : validate_approver input.approver snap.request.requester ≡ none

  -- What `Approve` and `Deny` may write: a due expiry, or their own event.
  abbrev pub ReviewGuard : EventType → Option Text → Env → ReviewInput → Projection → Event → Type 0
  ReviewGuard type details env input p e =
      Expires J env input.request_id p e ⊎ Reviews type details env input p e

  -- The details that the two operations marshal.
  abbrev pub approval_of : ReviewInput → Option Text
  approval_of input =
      J.marshal_approval (record { approver = input.approver; approval_code = input.approval_code })

  abbrev pub denial_of : ReviewInput → Option Text
  denial_of input = J.marshal_denial (record { approver = input.approver; reason = input.reason })

  review_written :
      (type : EventType) (details : Option Text) (message : Message) (env : Env)
      (input : ReviewInput) (snap : Snapshot) (s : Service)
      → get s.projection input.request_id ≡ some snap
      → snap.status ≡ pending
      → env.now < snap.request.expires_at
      → validate_approver input.approver snap.request.requester ≡ none
      → Moves J
          (ReviewGuard type details env input s.projection)
          s.projection
          ((commit_details J env.event input.request_id input.approver type details >>= λ _.
              reply J input.request_id message)
            s).0.projection
  review_written type details message env input snap s there waiting early valid =
      subst
        (λ (u : Service).
          Moves J (ReviewGuard type details env input s.projection) s.projection u.projection)
        (sym (
          then_pure J (commit_details J env.event input.request_id input.approver type details)
            (reply J input.request_id message) s (reply_same J input.request_id message)))
        (commit_details-Moves J (ReviewGuard type details env input s.projection) env.event
          input.request_id input.approver type details s
          λ d e found c. inr (record {
            type_is = c.type;
            mine = c.request_id;
            actor = c.actor;
            details_are = found ∙ ap some (sym c.details);
            snap = snap;
            there = there;
            waiting = waiting;
            in_time = early;
            another = valid;
          }))

  module _ (env : Env) (input : ReviewInput) (s : Service)
      (early : (snap : Snapshot)
        → get s.projection input.request_id ≡ some snap
        → snap.status ≡ pending
        → env.now < snap.request.expires_at) where
    approve_found-Moves :
        (o : Option Snapshot)
        → get s.projection input.request_id ≡ o
        → Moves J
            (ReviewGuard request_approved (approval_of input) env input s.projection)
            s.projection
            (approve_found J env input o s).0.projection
    unfolding approve_found pure
    approve_found-Moves none there = stays
    approve_found-Moves (some snap) there = elim (Bool-cases (is_pending snap.status)) [
      | inr other ↦ rw other stays
      | inl waits ↦ rw waits (
          valid (is_pending_iff J snap.status waits)
            (validate_approver input.approver snap.request.requester) refl)
    ]
      where
        valid :
            snap.status ≡ pending
            → (o : Option Message) → validate_approver input.approver snap.request.requester ≡ o
            → Moves J
                (ReviewGuard request_approved (approval_of input) env input s.projection)
                s.projection
                (approve_valid J env input o s).0.projection
        valid w (some message) v = stays
        valid w none v =
            review_written request_approved (approval_of input) Protocol.request_approved env input
              snap s there w (early snap there w) v

    deny_found-Moves :
        (o : Option Snapshot)
        → get s.projection input.request_id ≡ o
        → Moves J
            (ReviewGuard request_denied (denial_of input) env input s.projection)
            s.projection
            (deny_found J env input o s).0.projection
    unfolding deny_found pure
    deny_found-Moves none there = stays
    deny_found-Moves (some snap) there = elim (Bool-cases (is_pending snap.status)) [
      | inr other ↦ rw other stays
      | inl waits ↦ rw waits (
          valid (is_pending_iff J snap.status waits)
            (validate_approver input.approver snap.request.requester) refl)
    ]
      where
        valid :
            snap.status ≡ pending
            → (o : Option Message) → validate_approver input.approver snap.request.requester ≡ o
            → Moves J
                (ReviewGuard request_denied (denial_of input) env input s.projection)
                s.projection
                (deny_valid J env input o s).0.projection
        valid w (some message) v = stays
        valid w none v =
            review_written request_denied (denial_of input) Protocol.request_denied env input snap s
              there w (early snap there w) v

  -- Whatever the file system does, `Approve` changes the projection by one event at most: the expiry
  -- of its request, if that is due, or its approval, recorded with the approver that was given, and
  -- only if the request waits, is not expired, and was not made by that approver.
  pub approve-Moves :
      (env : Env) (input : ReviewInput) (s : Service)
      → Moves J
          (ReviewGuard request_approved (approval_of input) env input s.projection)
          s.projection
          (approve J env input s).0.projection
  unfolding approve pure
  approve-Moves env input s =
      section-Moves J (ReviewGuard request_approved (approval_of input) env input s.projection) env
        input.request_id (approve_found J env input) s (λ e x. inl x) (λ snap t over. rw over)
        (λ o there early. approve_found-Moves env input s early o there)

  -- Whatever the file system does, `Deny` changes the projection by one event at most: the expiry of
  -- its request, if that is due, or its denial, recorded with the approver that was given, and only
  -- if the request waits, is not expired, and was not made by that approver.
  pub deny-Moves :
      (env : Env) (input : ReviewInput) (s : Service)
      → Moves J
          (ReviewGuard request_denied (denial_of input) env input s.projection)
          s.projection
          (deny J env input s).0.projection
  unfolding deny pure
  deny-Moves env input s =
      section-Moves J (ReviewGuard request_denied (denial_of input) env input s.projection) env
        input.request_id (deny_found J env input) s (λ e x. inl x) (λ snap t over. rw over)
        (λ o there early. deny_found-Moves env input s early o there)
