-- ===== src/Tests/Sockets.antt =====
-- The theorems about the sockets at concrete messages.
use request_sudo.Base.{◌≡◌, refl, [], ◌∷◌, none, some, codes, lookup, text_eq, itoa, arith}
use request_sudo.Core.{approved}
use request_sudo.Events.Log.{append}
use request_sudo.Projection.{Snapshot, get}
use request_sudo.Protocol.{WireRequest, review_approve, request_execute, Action}
use request_sudo.Broker.Requests.{validate_approver}
use request_sudo.Broker.Effects.{Moves}
use request_sudo.Socket.{Server, request_lane, review_lane, CallEnv, dispatch, handle_conn, has_id}
use request_sudo.Socket.Lanes.{Unreviewed, LaneGuard, request_lane_never_reviews, review_lane-Moves}
use request_sudo.Socket.Unidentified.{unidentified_peer_approves}
use request_sudo.Tests.Sample.{sample, sample-RoundTrips}
use request_sudo.Tests.Scenario.{rid, ann, bob, waiting_snap, granted_snap, holding}
use request_sudo.Tests.Logs.{empty_log, works}
use request_sudo.Tests.Brokers.{service, at}
use request_sudo.Tests.Succeeds.{approval_text, approval_event, sealed, appended_approval}

abbrev pub server : Server
server = record { review_uids = 0 ∷ 7 ∷ []; review_gids = [] }

abbrev message : Action → WireRequest
message action = record {
  action = action;
  argv = [];
  reason = [];
  mode = [];
  request_id = rid;
  approver = ann;
  approval_code = [];
  cwd = [];
}

abbrev pub call_env : CallEnv
call_env = record { section = at 15; new_id = codes "n"; finish = works }

request_lane_never_reviews_example :
    Unreviewed sample
      (holding granted_snap)
      (dispatch sample server request_lane call_env
        (message request_execute)
        bob
        (service (holding granted_snap))).0.projection
request_lane_never_reviews_example =
    request_lane_never_reviews sample server call_env (message request_execute) bob
      (service (holding granted_snap))

review_lane-Moves_example :
    Moves sample
      (LaneGuard sample server call_env (message review_approve) bob (holding waiting_snap))
      (holding waiting_snap)
      (dispatch sample server review_lane call_env
        (message review_approve)
        bob
        (service (holding waiting_snap))).0.projection
review_lane-Moves_example =
    review_lane-Moves sample server call_env (message review_approve) bob
      (service (holding waiting_snap))

unidentified_peer_approves_example :
    (snap : Snapshot) × (get
        (handle_conn sample server review_lane call_env none
          (message review_approve)
          (service (holding waiting_snap))).0.projection
        rid
      ≡ some snap)
    × (snap.status ≡ approved)
unfolding get lookup text_eq validate_approver itoa has_id
unidentified_peer_approves_example =
    unidentified_peer_approves sample sample-RoundTrips server call_env (message review_approve)
      (service (holding waiting_snap)) waiting_snap approval_text
      (append sample works approval_event empty_log).0 (sealed approval_event) refl refl refl refl
      (omega arith) refl refl appended_approval
