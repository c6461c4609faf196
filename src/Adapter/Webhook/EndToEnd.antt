-- ===== src/Adapter/Webhook/EndToEnd.antt =====
-- internal/twilioadapter/webhook_handler.go with internal/socket/client.go and server.go: what a reply
-- does to the requests of the broker.
use request_sudo.Base.{◌≡◌, ap, subst, true, Option, Text}
use request_sudo.Core.{PeerIdentity}
use request_sudo.Events.{Event, request_approved, request_denied}
use request_sudo.Events.Json.{Json}
use request_sudo.Protocol.{WireRequest, Response}
use request_sudo.Broker.State.{Service}
use request_sudo.Broker.ReviewGuards.{approval_of, denial_of}
use request_sudo.Broker.Effects.{Moves, stays}
use request_sudo.Broker.Kinds.{Moves-map}
use request_sudo.Socket.{review_lane, Server, CallEnv, dispatch, handle_conn, peer_or_unknown}
use request_sudo.Socket.Lanes.{
  asked_approval, asked_denial, Admits, approve_message-Moves, deny_message-Moves,
}
use request_sudo.Socket.Client.{
  Delivery, not_dialled, not_encoded, not_decoded, delivered, socket_call,
}
use request_sudo.Adapter.Pending.{PendingSet}
use request_sudo.Adapter.Pending.Views.{IsBound}
use request_sudo.Adapter.Replies.{approve, deny}
use request_sudo.Adapter.Verify.{CheckResult, TwilioError}
use request_sudo.Adapter.Webhook.{
  Settings, Inbound, Clock, World, approval_message, denial_message, is_verified,
  handle_inbound_reply, broker_request,
}
use request_sudo.Adapter.Webhook.Effects.{
  IsAuthentic, Orders, approves, denies, IsAsked, Leaves, ignored, unanswered, consumed,
  handle_inbound_reply-Leaves,
}

module _ (J : Json) (server : Server) (delivery : Delivery) (env : CallEnv)
    (peer : Option PeerIdentity) (check : Text → Text → CheckResult × Option TwilioError)
    (deps : Settings) (clock : Clock) (sign : Text → Text → Text) (r : Inbound)
    (w : World Service) where
  -- The messages of the adapter, over its connection to the broker.
  abbrev pub call : WireRequest → Service → Service × Option Response
  call = socket_call J server review_lane env peer delivery

  abbrev AdmitsApproval : Text → Event → Type 0
  AdmitsApproval request_id =
      let input = asked_approval (approval_message deps request_id) in
      Admits J server request_approved (approval_of J input) input env
        (peer_or_unknown J server peer) w.broker.projection

  abbrev AdmitsDenial : Text → Event → Type 0
  AdmitsDenial request_id =
      let input = asked_denial (denial_message deps request_id) in
      Admits J server request_denied (denial_of J input) input env (peer_or_unknown J server peer)
        w.broker.projection

  -- The event that a reply may bring about.
  pub data MayWrite (e : Event) : Type 0 where
    approving :
        (from request_id code : Text)
        → IsAuthentic sign deps r from approve code
        → is_verified (check from code) ≡ true
        → IsBound clock.at_resolve from request_id w.pending
        → AdmitsApproval request_id e
        → MayWrite e
    denying :
        (from request_id code : Text)
        → IsAuthentic sign deps r from deny code
        → IsBound clock.at_resolve from request_id w.pending
        → AdmitsDenial request_id e
        → MayWrite e

  abbrev Reaches : (Event → Type 0) → Service → Type 0
  Reaches P s = Moves J P w.broker.projection s.projection

  -- A call changes what the dispatched message changes, or nothing.
  called :
      (P : Event → Type 0) (d : Delivery) (message : WireRequest)
      → Reaches P
          (dispatch J server review_lane env message (peer_or_unknown J server peer) w.broker).0
      → Reaches P (socket_call J server review_lane env peer d message w.broker).0
  unfolding socket_call handle_conn
  called P not_dialled message m = stays
  called P not_encoded message m = stays
  called P not_decoded message m = m
  called P delivered message m = m

  call-approval :
      (request_id : Text)
      → Reaches (AdmitsApproval request_id) (call (approval_message deps request_id) w.broker).0
  unfolding dispatch broker_request
  call-approval request_id =
      called (AdmitsApproval request_id) delivery (approval_message deps request_id) (
        approve_message-Moves J server env (approval_message deps request_id)
          (peer_or_unknown J server peer) w.broker)

  call-denial :
      (request_id : Text)
      → Reaches (AdmitsDenial request_id) (call (denial_message deps request_id) w.broker).0
  unfolding dispatch broker_request
  call-denial request_id =
      called (AdmitsDenial request_id) delivery (denial_message deps request_id) (
        deny_message-Moves J server env (denial_message deps request_id)
          (peer_or_unknown J server peer) w.broker)

  ordered :
      (from request_id : Text) {message : WireRequest}
      → Orders check sign deps r from request_id message
      → IsBound clock.at_resolve from request_id w.pending
      → Reaches MayWrite (call message w.broker).0
  ordered from request_id (approves code good checked) here =
      Moves-map J (λ e g. approving from request_id code good checked here g)
        (call-approval request_id)
  ordered from request_id (denies code good) here =
      Moves-map J (λ e g. denying from request_id code good here g) (call-denial request_id)

  asked :
      {answer : Option Response} {s : Service} (from request_id : Text)
      → IsAsked call check deps clock sign r w from request_id answer s
      → Reaches MayWrite s
  asked from request_id q =
      subst (Reaches MayWrite) (ap (λ (x : Service × Option Response). x.0) q.is_called)
        (ordered from request_id q.ordered q.is_bound)

  left :
      {ps : PendingSet} {s : Service}
      → Leaves call check deps clock sign r w ps s
      → Reaches MayWrite s
  left (ignored ps k) = stays
  left (unanswered from request_id s q) = asked from request_id q
  left (consumed from request_id resp ps s q k) = asked from request_id q

  -- A reply by text message changes the requests of the broker by one event at most, and only if
  -- Twilio signed the reply, it comes from a phone that waits for that very request within its
  -- time, and the peer that the server reads for the adapter's connection is in the sets of
  -- reviewers, where a peer that cannot be read counts as user 0 and group 0: by the approval that
  -- `Approve` admits, if the reply approves and Twilio accepts its code for that phone, by the
  -- denial that `Deny` admits, if it denies, or by the due expiry of that request, which either may
  -- bring about. This holds however far the call on the socket comes.
  pub inbound_reply-Moves :
      Moves J MayWrite w.broker.projection
        (handle_inbound_reply call check deps clock sign r w).0.broker.projection
  inbound_reply-Moves = left (handle_inbound_reply-Leaves call check deps clock sign r w)
