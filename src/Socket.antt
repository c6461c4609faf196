-- ===== src/Socket.antt =====
-- internal/socket/server.go: who may do what on which of the two sockets.
pub mod Lanes
pub mod Unidentified
pub mod Client
use request_sudo.Base.{
  ℕ, Bool, false, List, [], ◌∷◌, Text, codes, ◌==◌, ◌||◌, if◌then◌else◌, Option, none, some,
}
use request_sudo.Core.{rejected, error, PeerIdentity}
use request_sudo.Events.{Result, ok, err}
use request_sudo.Events.Json.{Json}
use request_sudo.Events.Log.{AppendEnv}
use request_sudo.Protocol.{
  Action, request_submit, request_status, request_execute, review_approve, review_deny, other,
  WireRequest, Message, submit_wrong_lane, status_wrong_lane, execute_wrong_lane,
  approve_wrong_lane, deny_wrong_lane, review_peer_refused, unsupported_action, service_error,
  Response, plain_response,
}
use request_sudo.Broker.State.{Service, Exec, pure}
use request_sudo.Broker.Requests.{Env, submit, status}
use request_sudo.Broker.Review.{approve, deny}
use request_sudo.Broker.Execute.{execute}

-- The two listeners that `Run` starts.
pub data Lane : Type 0 where
  request_lane review_lane : Lane

-- The sets of a server: the keys of its two maps.
pub record Server : Type 0 where
  pub review_uids : List ℕ
  pub review_gids : List ℕ

-- `NewServer`, whose sets are made from the two lists of ids.
unfoldable pub new_server : List ℕ → List ℕ → Server
new_server review_uids review_gids = record { review_uids = review_uids; review_gids = review_gids }

-- `_, ok := set[id]`
unfoldable pub has_id : List ℕ → ℕ → Bool
has_id [] id = false
has_id (x ∷ xs) id = x == id || has_id xs id

-- `reviewAllowed`
unfoldable pub review_allowed : Server → PeerIdentity → Bool
unfolding has_id
review_allowed server peer =
    has_id server.review_uids peer.uid || has_id server.review_gids peer.gid

-- What one call of the service gets from outside.
pub record CallEnv : Type 0 where
  pub section : Env
  pub new_id : Text
  pub finish : AppendEnv

abbrev pub refuse : Text → Message → Exec Response
refuse request_id message = pure (plain_response request_id rejected message)

module _ (J : Json) (server : Server) where
  -- The `switch` of `dispatch`.
  unfoldable pub dispatch_action :
      Action → Lane → CallEnv → WireRequest → PeerIdentity → Exec Response
  dispatch_action request_submit request_lane env request peer =
      submit J env.section env.new_id (record {
        argv = request.argv;
        reason = request.reason;
        mode = request.mode;
        requester = peer;
        cwd = request.cwd;
      })
  dispatch_action request_submit review_lane env request peer = refuse [] submit_wrong_lane
  dispatch_action request_status request_lane env request peer =
      status J env.section request.request_id
  dispatch_action request_status review_lane env request peer = refuse [] status_wrong_lane
  dispatch_action request_execute request_lane env request peer =
      execute J env.section env.finish request.request_id
  dispatch_action request_execute review_lane env request peer = refuse [] execute_wrong_lane
  dispatch_action review_approve request_lane env request peer = refuse [] approve_wrong_lane
  dispatch_action review_approve review_lane env request peer =
      if review_allowed server peer
      then approve J env.section (record {
        request_id = request.request_id;
        approver = request.approver;
        approval_code = request.approval_code;
        reason = [];
      })
      else refuse request.request_id review_peer_refused
  dispatch_action review_deny request_lane env request peer = refuse [] deny_wrong_lane
  dispatch_action review_deny review_lane env request peer =
      if review_allowed server peer
      then deny J env.section (record {
        request_id = request.request_id;
        approver = request.approver;
        approval_code = [];
        reason = request.reason;
      })
      else refuse request.request_id review_peer_refused
  dispatch_action (other action) lane env request peer =
      pure (plain_response request.request_id error (unsupported_action action))

  -- `dispatch`
  unfoldable pub dispatch : Lane → CallEnv → WireRequest → PeerIdentity → Exec Response
  unfolding dispatch_action
  dispatch lane env request peer = dispatch_action request.action lane env request peer

  unfoldable pub answer : Text → Result Response → Response
  answer request_id (ok response) = response
  answer request_id (err x) = plain_response request_id error (service_error x)

  -- `peer, err := peerIdentity(conn)`, where an error leaves only the username `unknown`.
  abbrev pub peer_or_unknown : Option PeerIdentity → PeerIdentity
  peer_or_unknown (some peer) = peer
  peer_or_unknown none = record { uid = 0; gid = 0; pid = 0; username = codes "unknown" }

  -- `handleConn`, for a message that was decoded.
  unfoldable pub handle_conn :
      Lane → CallEnv → Option PeerIdentity → WireRequest → Service → Service × Response
  unfolding dispatch answer
  handle_conn lane env peer request s =
      let (s', r) = dispatch lane env request (peer_or_unknown peer) s in
      (s', answer request.request_id r)
