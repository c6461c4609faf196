-- ===== src/Broker/ReviewDurable.antt =====
-- internal/broker/service.go: the log against the projection, across `Approve` and `Deny`.
use mathlib.Core.Option.{IsSome}
use request_sudo.Base.{
  ◌≡◌, refl, ap, sym, subst, ◌∙◌, Bool, true, false, Option, none, some, if◌then◌else◌,
}
use request_sudo.Core.{pending, approved, denied}
use request_sudo.Events.{request_approved, request_denied}
use request_sudo.Events.Json.{Json, RoundTrips}
use request_sudo.Projection.{Snapshot, get, is_pending}
use request_sudo.Projection.Transitions.{Edge, approve as approve_edge, deny as deny_edge}
use request_sudo.Projection.Accepts.{Decodes}
use request_sudo.Protocol
use request_sudo.Protocol.{Message, approval_required}
use request_sudo.Broker.State.{Service, Exec, pure}
use request_sudo.Broker.Requests.{Env, new_event, ReviewInput, validate_approver}
use request_sudo.Broker.Durable.{LinesFit, IsClean, Durable}
use request_sudo.Broker.Review.{approve, approve_found, approve_valid, deny, deny_found, deny_valid}
use request_sudo.Broker.ReviewGuards.{approval_of, denial_of}
use request_sudo.Broker.Guards.{is_pending_iff}
use request_sudo.Broker.Restart.{accepts, commit_reply-Durable, section-Durable}

pub decodes_to {ℓ} : {A : Type ℓ} (o : Option A) {a : A} → o ≡ some a → IsSome o
decodes_to none h = cc
decodes_to (some b) h = tt

module _ (J : Json) (laws : RoundTrips J) where
  -- A branch on a test of the state.
  branch-Durable :
      {A : Type 0} (b : Bool) (m n : Exec A) (s : Service)
      → (b ≡ true → LinesFit (m s).0.log.file.lines → Durable J (m s).0)
      → (b ≡ false → LinesFit (n s).0.log.file.lines → Durable J (n s).0)
      → LinesFit ((if b then m else n) s).0.log.file.lines
      → Durable J ((if b then m else n) s).0
  branch-Durable true m n s on off = on refl
  branch-Durable false m n s on off = off refl

  pub approve-Durable :
      (env : Env) (input : ReviewInput) (s : Service)
      → IsClean env.expiry
      → IsClean env.event
      → LinesFit (approve J env input s).0.log.file.lines
      → Durable J s
      → Durable J (approve J env input s).0
  unfolding approve pure
  approve-Durable env input s clean clean' fits d =
      section-Durable J laws env input.request_id (approve_found J env input) s clean
        (λ snap t over. rw over) found fits d
    where
      valid :
          (snap : Snapshot)
          → get s.projection input.request_id ≡ some snap
          → snap.status ≡ pending
          → (o : Option Message) → LinesFit (approve_valid J env input o s).0.log.file.lines
          → Durable J (approve_valid J env input o s).0
      valid snap there waiting (some message) f = d
      valid snap there waiting none f =
          commit_reply-Durable J laws env.event input.request_id input.approver request_approved
            (approval_of J input) Protocol.request_approved s clean'
            (λ x e found c.
              accepts J laws (new_event input.request_id input.approver request_approved x) e
                s.projection snap approved c there
                (subst (λ t. Edge request_approved t approved) (sym waiting) approve_edge)
                (λ t.
                  subst (λ k. Decodes J k e) (sym t)
                    (decodes_to (J.unmarshal_approval e.details)
                      (ap J.unmarshal_approval c.details ∙ laws.approval _ x found))))
            f d

      found :
          (o : Option Snapshot)
          → get s.projection input.request_id ≡ o
          → LinesFit (approve_found J env input o s).0.log.file.lines
          → Durable J (approve_found J env input o s).0
      found none there = λ f. d
      found (some snap) there =
          branch-Durable (is_pending snap.status)
            (approve_valid J env input (validate_approver input.approver snap.request.requester))
            (pure (Protocol.from_snapshot snap Protocol.request_not_pending)) s
            (λ w.
              valid snap there (is_pending_iff J snap.status w)
                (validate_approver input.approver snap.request.requester))
            (λ w f. d)

  pub deny-Durable :
      (env : Env) (input : ReviewInput) (s : Service)
      → IsClean env.expiry
      → IsClean env.event
      → LinesFit (deny J env input s).0.log.file.lines
      → Durable J s
      → Durable J (deny J env input s).0
  unfolding deny pure
  deny-Durable env input s clean clean' fits d =
      section-Durable J laws env input.request_id (deny_found J env input) s clean
        (λ snap t over. rw over) found fits d
    where
      valid :
          (snap : Snapshot)
          → get s.projection input.request_id ≡ some snap
          → snap.status ≡ pending
          → (o : Option Message) → LinesFit (deny_valid J env input o s).0.log.file.lines
          → Durable J (deny_valid J env input o s).0
      valid snap there waiting (some message) f = d
      valid snap there waiting none f =
          commit_reply-Durable J laws env.event input.request_id input.approver request_denied
            (denial_of J input) Protocol.request_denied s clean'
            (λ x e found c.
              accepts J laws (new_event input.request_id input.approver request_denied x) e
                s.projection snap denied c there
                (subst (λ t. Edge request_denied t denied) (sym waiting) deny_edge)
                (λ t.
                  subst (λ k. Decodes J k e) (sym t)
                    (decodes_to (J.unmarshal_denial e.details)
                      (ap J.unmarshal_denial c.details ∙ laws.denial _ x found))))
            f d

      found :
          (o : Option Snapshot)
          → get s.projection input.request_id ≡ o
          → LinesFit (deny_found J env input o s).0.log.file.lines
          → Durable J (deny_found J env input o s).0
      found none there = λ f. d
      found (some snap) there =
          branch-Durable (is_pending snap.status)
            (deny_valid J env input (validate_approver input.approver snap.request.requester))
            (pure (Protocol.from_snapshot snap Protocol.request_not_pending)) s
            (λ w.
              valid snap there (is_pending_iff J snap.status w)
                (validate_approver input.approver snap.request.requester))
            (λ w f. d)
