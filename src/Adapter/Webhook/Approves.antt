-- ===== src/Adapter/Webhook/Approves.antt =====
-- internal/twilioadapter/webhook_handler.go: a reply that is accepted, from the text message to the
-- broker's answer.
use request_sudo.Base.{
  ◌<◌, ◌≡◌, refl, sym, subst, ◌∙◌, true, false, Option, none, some, Text, [], lookup, text_eq_refl,
}
use request_sudo.Core.{PeerIdentity, pending, approved}
use request_sudo.Events.{Event, request_approved, ok}
use request_sudo.Events.Json.{Json, RoundTrips}
use request_sudo.Events.Log.{Log, append}
use request_sudo.Projection.{Snapshot, get}
use request_sudo.Protocol.{WireRequest, Response}
use request_sudo.Broker.State.{Service}
use request_sudo.Broker.Requests.{new_event, validate_approver}
use request_sudo.Broker.ReviewGuards.{approval_of}
use request_sudo.Broker.Succeeds.{approve_succeeds}
use request_sudo.Socket.{
  review_lane, Server, CallEnv, review_allowed, dispatch_action, dispatch, handle_conn,
}
use request_sudo.Socket.Lanes.{asked_approval}
use request_sudo.Socket.Client.{delivered, socket_call}
use request_sudo.Adapter.Pending.Views.{IsBound, resolve-bound, release-lookup}
use request_sudo.Adapter.Replies.{ReplyIntent, approve}
use request_sudo.Adapter.Verify.{CheckResult, TwilioError}
use request_sudo.Adapter.Webhook.{
  Settings, Inbound, Clock, HttpAnswer, empty_twiml, World, approval_message, is_verified,
  is_unknown, approval_called, code_checked, act, sender_resolved, handle_reply, handle_form,
  handle_inbound_reply, resolved, broker_request,
}
use request_sudo.Adapter.Webhook.Effects.{IsAuthentic}

module _ {B : Type 0} (call : WireRequest → B → B × Option Response)
    (check : Text → Text → CheckResult × Option TwilioError) (deps : Settings) (clock : Clock)
    (sign : Text → Text → Text) (r : Inbound) (w : World B) where
  -- An authentic reply from a phone that waits comes to the `switch`.
  pub handle_inbound_reply-act :
      (from request_id code : Text) (intent : ReplyIntent)
      → is_unknown intent ≡ false
      → IsAuthentic sign deps r from intent code
      → IsBound clock.at_resolve from request_id w.pending
      → handle_inbound_reply call check deps clock sign r w
        ≡ act call check deps clock intent code request_id from (resolved w.pending [] w)
  unfolding handle_inbound_reply handle_form handle_reply sender_resolved
  handle_inbound_reply-act from request_id code intent known good here =
      rw
        (
          good.is_post,
          good.has_form,
          good.is_signed,
          good.says,
          good.sender,
          known,
          resolve-bound clock.at_resolve from request_id w.pending here,
        )
        refl

module _ {B : Type 0} where
  -- What an approval that the broker answers leaves.
  approval_called-answered :
      (call : WireRequest → B → B × Option Response)
      (check : Text → Text → CheckResult × Option TwilioError) (deps : Settings) (clock : Clock)
      (request_id from : Text) (result : CheckResult) (w : World B) (b : B) (resp : Response)
      → ((approval_called call check deps clock request_id from result w (b, some resp)).broker ≡ b)
        × (lookup from
              (approval_called call check deps clock request_id from result w
                (b, some resp)).pending.items
            ≡ none)
  unfolding approval_called
  approval_called-answered call check deps clock request_id from result w b resp =
      (refl, release-lookup clock.at_release from from w.pending ∙ rw (text_eq_refl from) refl)

module _ (J : Json) (server : Server) (env : CallEnv) (peer : PeerIdentity)
    (check : Text → Text → CheckResult × Option TwilioError) (deps : Settings) (clock : Clock)
    (sign : Text → Text → Text) (r : Inbound) (w : World Service) where
  -- The handler, over a connection that works.
  abbrev pub run : World Service × HttpAnswer
  run =
      handle_inbound_reply (socket_call J server review_lane env (some peer) delivered) check deps
        clock sign r w

  -- The broker has the request as approved.
  abbrev pub IsApproved : Text → Service → Type 0
  IsApproved id s = (snap : Snapshot) × (get s.projection id ≡ some snap) × (snap.status ≡ approved)

  abbrev handled : Text → Service × Response
  handled request_id =
      handle_conn J server review_lane env (some peer) (approval_message deps request_id) w.broker

  run-approval_called :
      (from request_id code : Text)
      → IsAuthentic sign deps r from approve code
      → IsBound clock.at_resolve from request_id w.pending
      → is_verified (check from code) ≡ true
      → run ≡ (
        approval_called
            (socket_call J server review_lane env (some peer) delivered)
            check
            deps
            clock
            request_id
            from
            (check from code).0
            (resolved w.pending [] w)
            ((handled request_id).0, some (handled request_id).1),
        empty_twiml,
      )
  unfolding act code_checked socket_call
  run-approval_called from request_id code good here checked =
      handle_inbound_reply-act (socket_call J server review_lane env (some peer) delivered) check
        deps clock sign r w from request_id code approve refl good here
      ∙ rw checked refl

  handled-IsApproved :
      (laws : RoundTrips J) (request_id : Text) (snap : Snapshot) (details : Text) (log : Log)
      (e : Event)
      → review_allowed server peer ≡ true
      → get w.broker.projection request_id ≡ some snap
      → snap.status ≡ pending
      → env.section.now < snap.request.expires_at
      → validate_approver (approval_message deps request_id).approver snap.request.requester ≡ none
      → approval_of J (asked_approval (approval_message deps request_id)) ≡ some details
      → append J env.section.event
          (new_event request_id
            (approval_message deps request_id).approver
            request_approved
            details)
          w.broker.log
        ≡ (log, ok e)
      → IsApproved request_id (handled request_id).0
  unfolding handle_conn dispatch dispatch_action broker_request
  handled-IsApproved laws request_id snap details log e allowed there waiting early another encoded
        written =
      let (snap', now, reached, frozen, answer) =
        approve_succeeds J laws env.section (asked_approval (approval_message deps request_id))
          w.broker snap details log e there waiting early another encoded written in
      rw allowed (snap', now, reached)

  -- An authentic reply that approves, from a phone that waits for a request within its time, with a
  -- code that Twilio accepts, approves that request, takes out the entry of the phone and answers
  -- with the empty document, where the call on the socket works, the peer of the adapter's
  -- connection is read and is in the sets of reviewers, the request waits and is not expired, the
  -- adapter's identity is another than the requester's, and the marshalling and the append work. It
  -- does so whatever sets of approvers the adapter's identity is in.
  pub inbound_reply_approves :
      (laws : RoundTrips J) (from request_id code : Text) (snap : Snapshot) (details : Text)
      (log : Log) (e : Event)
      → IsAuthentic sign deps r from approve code
      → IsBound clock.at_resolve from request_id w.pending
      → is_verified (check from code) ≡ true
      → review_allowed server peer ≡ true
      → get w.broker.projection request_id ≡ some snap
      → snap.status ≡ pending
      → env.section.now < snap.request.expires_at
      → validate_approver (approval_message deps request_id).approver snap.request.requester ≡ none
      → approval_of J (asked_approval (approval_message deps request_id)) ≡ some details
      → append J env.section.event
          (new_event request_id
            (approval_message deps request_id).approver
            request_approved
            details)
          w.broker.log
        ≡ (log, ok e)
      → IsApproved request_id run.0.broker
        × (lookup from run.0.pending.items ≡ none)
        × (run.1 ≡ empty_twiml)
  inbound_reply_approves laws from request_id code snap details log e good here checked allowed
        there waiting early another encoded written =
      let (broker, slot) =
        approval_called-answered (socket_call J server review_lane env (some peer) delivered) check
          deps clock request_id from (check from code).0 (resolved w.pending [] w)
          (handled request_id).0 (handled request_id).1 in
      rw (run-approval_called from request_id code good here checked) (
        subst (IsApproved request_id) (sym broker) (
            handled-IsApproved laws request_id snap details log e allowed there waiting early
              another encoded written),
        slot,
        refl,
      )
