-- ===== src/Socket/Unidentified.antt =====
-- internal/socket/server.go: a review by a peer whose identity cannot be read.
use request_sudo.Base.{◌<◌, ◌≡◌, sym, subst, true, none, some, Text}
use request_sudo.Core.{pending, approved}
use request_sudo.Events.{request_approved, Event, ok}
use request_sudo.Events.Json.{Json, RoundTrips}
use request_sudo.Events.Log.{Log, append}
use request_sudo.Projection.{Snapshot, get}
use request_sudo.Protocol.{Action, review_approve, WireRequest}
use request_sudo.Broker.State.{Service}
use request_sudo.Broker.Requests.{new_event, validate_approver}
use request_sudo.Broker.ReviewGuards.{approval_of}
use request_sudo.Broker.Succeeds.{approve_succeeds}
use request_sudo.Socket.{
  review_lane, Server, has_id, review_allowed, CallEnv, dispatch_action, dispatch, peer_or_unknown,
  handle_conn,
}
use request_sudo.Socket.Lanes.{asked_approval}

module _ (J : Json) where
  -- A request is approved in the service.
  abbrev IsApproved : Text → Service → Type 0
  IsApproved id s = (snap : Snapshot) × (get s.projection id ≡ some snap) × (snap.status ≡ approved)

  -- Where user 0 is in the review set, a message on the review socket whose peer cannot be identified
  -- approves a request that waits and is not expired, if it names an approver that is another identity
  -- than the requester, and the marshalling and the append work.
  pub unidentified_peer_approves :
      (laws : RoundTrips J) (server : Server) (env : CallEnv) (request : WireRequest) (s : Service)
      (snap : Snapshot) (details : Text) (log : Log) (e : Event)
      → has_id server.review_uids 0 ≡ true
      → request.action ≡ review_approve
      → get s.projection request.request_id ≡ some snap
      → snap.status ≡ pending
      → env.section.now < snap.request.expires_at
      → validate_approver request.approver snap.request.requester ≡ none
      → approval_of J (asked_approval request) ≡ some details
      → append J env.section.event
          (new_event request.request_id request.approver request_approved details)
          s.log
        ≡ (log, ok e)
      → IsApproved request.request_id (handle_conn J server review_lane env none request s).0
  unfolding handle_conn dispatch dispatch_action review_allowed
  unidentified_peer_approves laws server env request s snap details log e root action there waiting
        early another encoded written =
      let (snap', now, reached, frozen, answer) =
        approve_succeeds J laws env.section (asked_approval request) s snap details log e there
          waiting early another encoded written in
      subst
        (λ (a : Action).
          IsApproved request.request_id
            (dispatch_action J server a review_lane env request (peer_or_unknown J server none)
              s).0)
        (sym action) (rw root (snap', now, reached))
