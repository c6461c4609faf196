-- ===== src/Socket/Lanes.antt =====
-- internal/socket/server.go: what a message may change, by the socket that it came on.
use request_sudo.Base.{
  ◌≡◌, refl, ap, sym, subst, Bool, true, false, List, [], ◌∷◌, ◌++◌, Option, none, some, Text, inl,
  inr, ◌⊎◌, if◌then◌else◌,
}
use request_sudo.Core.{PeerIdentity, ExecutionResult}
use request_sudo.Events.{EventType, request_approved, request_denied, Event, Result, ok}
use request_sudo.Events.Json.{Json}
use request_sudo.Events.Log.{AppendEnv}
use request_sudo.Projection.{Projection, rebuild_from}
use request_sudo.Projection.Rebuild.{rebuild_from-append}
use request_sudo.Protocol.{
  Action, request_submit, request_status, request_execute, review_approve, review_deny, WireRequest,
  Response,
}
use request_sudo.Broker.State.{Service, Exec, pure, continue, ◌>>=◌}
use request_sudo.Broker.Requests.{Env, ReviewInput}
use request_sudo.Broker.Review.{approve, deny}
use request_sudo.Broker.Execute.{Begun, execute, finish_begun, finish_execute, final_type}
use request_sudo.Broker.Effects.{Moves, stays, moves, Expires}
use request_sudo.Broker.Kinds.{
  IsNot, Moves-map, Expires-IsNot, submit-IsNot, status-IsNot, finish-IsNot,
}
use request_sudo.Broker.ReviewGuards.{
  ReviewGuard, approval_of, denial_of, approve-Moves, deny-Moves,
}
use request_sudo.Broker.StartGuards.{Begins, refused, broken, started, begin-Begins}
use request_sudo.Socket.{
  request_lane, review_lane, Server, review_allowed, CallEnv, dispatch_action, dispatch, refuse,
}

abbrev pub is_review : EventType → Bool
is_review request_approved = true
is_review request_denied = true
is_review _ = false

abbrev pub AllEvents : (Event → Type 0) → List Event → Type 0
AllEvents P [] = Unit {0}
AllEvents P (e ∷ es) = P e × AllEvents P es

AllEvents-append :
    (P : Event → Type 0) (es fs : List Event)
    → AllEvents P es
    → AllEvents P fs
    → AllEvents P (es ++ fs)
AllEvents-append P [] fs a b = b
AllEvents-append P (e ∷ es) fs (p, a) b = (p, AllEvents-append P es fs a b)

-- The reviews that a message asks for.
abbrev pub asked_approval : WireRequest → ReviewInput
asked_approval request = record {
  request_id = request.request_id;
  approver = request.approver;
  approval_code = request.approval_code;
  reason = [];
}

abbrev pub asked_denial : WireRequest → ReviewInput
asked_denial request = record {
  request_id = request.request_id;
  approver = request.approver;
  approval_code = [];
  reason = request.reason;
}

module _ (J : Json) where
  -- From `p` by events none of which is a review.
  abbrev pub Unreviewed : Projection → Projection → Type 0
  Unreviewed p p' =
      (es : List Event) × (rebuild_from J p es ≡ ok p') × AllEvents (IsNot is_review) es

  Moves-Unreviewed : {p p' : Projection} → Moves J (IsNot is_review) p p' → Unreviewed p p'
  unfolding rebuild_from
  Moves-Unreviewed stays = ([], refl, tt)
  Moves-Unreviewed (moves e g a) = (e ∷ [], rw a refl, (g, tt))

  Unreviewed-then : (p q r : Projection) → Unreviewed p q → Unreviewed q r → Unreviewed p r
  Unreviewed-then p q r (es, first, a) (fs, second, b) = (
    es ++ fs,
    rebuild_from-append J p q r es fs first second,
    AllEvents-append (IsNot is_review) es fs a b,
  )

  final_not_review : (o : Option Text) → is_review (final_type o) ≡ false
  final_not_review none = refl
  final_not_review (some text) = refl

  execute-Unreviewed :
      (env : Env) (finish : AppendEnv) (id : Text) (s : Service)
      → Unreviewed s.projection (execute J env finish id s).0.projection
  unfolding execute finish_begun ◌>>=◌
  execute-Unreviewed env finish id s = go (begin-Begins J env id s)
    where
      finished :
          (t : Service) (outcome : ExecutionResult × Option Text)
          → Unreviewed t.projection (finish_execute J finish id outcome t).0.projection
      finished t (result, exec_error) = Moves-Unreviewed (
          finish-IsNot J is_review refl finish id result exec_error t (final_not_review exec_error))

      due : (e : Event) → Expires J env id s.projection e → IsNot is_review e
      due = Expires-IsNot J is_review refl env id s.projection

      go :
          {q : Service × Result Begun}
          → Begins J env id s q
          → Unreviewed s.projection (continue q.1 (finish_begun J finish id) q.0).0.projection
      go (refused t response m) = Moves-Unreviewed (Moves-map J due m)
      go (broken t x m) = Moves-Unreviewed (Moves-map J due m)
      go (started t e start a same) =
          Unreviewed-then s.projection t.projection
            (finish_execute J finish id (t.executor.execute start.snap.request) t).0.projection
            (Moves-Unreviewed (moves e (ap is_review start.type_is) a))
            (finished t (t.executor.execute start.snap.request))

  module _ (server : Server) where
    -- Whatever message comes on the request socket, the projection changes only by events that are
    -- neither approvals nor denials.
    pub request_lane_never_reviews :
        (env : CallEnv) (request : WireRequest) (peer : PeerIdentity) (s : Service)
        → Unreviewed s.projection (dispatch J server request_lane env request peer s).0.projection
    unfolding dispatch dispatch_action pure
    request_lane_never_reviews env request peer s = by_action request.action
      where
        by_action :
            (action : Action)
            → Unreviewed s.projection
                (dispatch_action J server action request_lane env request peer s).0.projection
        by_action request_submit =
            Moves-Unreviewed (submit-IsNot J is_review refl env.section env.new_id _ s refl)
        by_action request_status =
            Moves-Unreviewed (status-IsNot J is_review refl env.section request.request_id s)
        by_action request_execute = execute-Unreviewed env.section env.finish request.request_id s
        by_action _ = Moves-Unreviewed stays

    allowed-Moves :
        (P : Event → Type 0) (b : Bool) (m n : Exec Response) (s : Service)
        → (b ≡ true → Moves J P s.projection (m s).0.projection)
        → ((n s).0 ≡ s)
        → Moves J P s.projection ((if b then m else n) s).0.projection
    allowed-Moves P true m n s on off = on refl
    allowed-Moves P false m n s on off =
        subst (λ (t : Service). Moves J P s.projection t.projection) (sym off) stays

    -- What a review on the review socket may write, of the event and the details that it asks for.
    abbrev pub Admits :
        EventType → Option Text → ReviewInput → CallEnv → PeerIdentity → Projection → Event → Type 0
    Admits type details input env peer p e =
        (review_allowed server peer ≡ true) × ReviewGuard J type details env.section input p e

    pub approve_message-Moves :
        (env : CallEnv) (request : WireRequest) (peer : PeerIdentity) (s : Service)
        → Moves J
            (Admits request_approved
              (approval_of J (asked_approval request))
              (asked_approval request)
              env
              peer
              s.projection)
            s.projection
            (dispatch_action J server review_approve review_lane env request peer s).0.projection
    unfolding dispatch_action pure
    approve_message-Moves env request peer s =
        allowed-Moves _ (review_allowed server peer)
          (approve J env.section (asked_approval request)) (refuse request.request_id _) s
          (λ yes.
            Moves-map J (λ e g. (yes, g)) (approve-Moves J env.section (asked_approval request) s))
          refl

    pub deny_message-Moves :
        (env : CallEnv) (request : WireRequest) (peer : PeerIdentity) (s : Service)
        → Moves J
            (Admits request_denied
              (denial_of J (asked_denial request))
              (asked_denial request)
              env
              peer
              s.projection)
            s.projection
            (dispatch_action J server review_deny review_lane env request peer s).0.projection
    unfolding dispatch_action pure
    deny_message-Moves env request peer s =
        allowed-Moves _ (review_allowed server peer) (deny J env.section (asked_denial request))
          (refuse request.request_id _) s
          (λ yes. Moves-map J (λ e g. (yes, g)) (deny-Moves J env.section (asked_denial request) s))
          refl

    -- What a message on the review socket may write.
    abbrev pub LaneGuard : CallEnv → WireRequest → PeerIdentity → Projection → Event → Type 0
    LaneGuard env request peer p e =
        (review_allowed server peer ≡ true)
        × (ReviewGuard J request_approved (approval_of J (asked_approval request)) env.section
              (asked_approval request) p e
            ⊎ ReviewGuard J request_denied (denial_of J (asked_denial request)) env.section
                (asked_denial request) p e)

    -- Whatever message comes on the review socket, the projection changes by one event at most, and
    -- only if the peer is in one of the allowed sets: by the approval or the denial that the message
    -- asks for, under the guards of `Approve` and `Deny`, or by the expiry of that request.
    pub review_lane-Moves :
        (env : CallEnv) (request : WireRequest) (peer : PeerIdentity) (s : Service)
        → Moves J
            (LaneGuard env request peer s.projection)
            s.projection
            (dispatch J server review_lane env request peer s).0.projection
    unfolding dispatch dispatch_action pure
    review_lane-Moves env request peer s = by_action request.action
      where
        by_action :
            (action : Action)
            → Moves J
                (LaneGuard env request peer s.projection)
                s.projection
                (dispatch_action J server action review_lane env request peer s).0.projection
        by_action review_approve =
            Moves-map J (λ e g. (g.0, inl g.1)) (approve_message-Moves env request peer s)
        by_action review_deny =
            Moves-map J (λ e g. (g.0, inr g.1)) (deny_message-Moves env request peer s)
        by_action _ = stays
