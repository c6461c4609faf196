-- ===== src/Broker/Requests.antt =====
-- internal/broker/service.go: `Submit` and `Status`, and the parts that the operations share.
use request_sudo.Base.{
  ℕ, ◌+◌, not, ◌&&◌, ◌||◌, List, [], ◌∷◌, ◌++◌, Option, none, some, Text, codes, text_eq, is_empty,
  itoa, ltb, if◌then◌else◌,
}
use request_sudo.Core.{error, Actor, PeerIdentity, ExecutionSpec, Request}
use request_sudo.Core.Describe.{describe_request}
use request_sudo.Events.{EventType, request_created, request_expired, Event, ok, marshal_failed}
use request_sudo.Events.Json.{Json}
use request_sudo.Events.Log.{AppendEnv}
use request_sudo.Projection.{Snapshot, get, is_pending}
use request_sudo.Execution.{build_execution_spec, env_slice}
use request_sudo.Protocol.{
  Message, argv_required, approval_required, status_retrieved, request_not_found,
  approver_identity_required, self_approval_forbidden, Response, plain_response, from_snapshot,
  zero_response,
}
use request_sudo.Broker.State.{Exec, pure, fail, commit, ◌>>=◌}

pub record SubmitInput : Type 0 where
  pub argv : List Text
  pub reason : Text
  pub mode : Text
  pub requester : PeerIdentity
  pub cwd : Text

pub record ReviewInput : Type 0 where
  pub request_id : Text
  pub approver : Actor
  pub approval_code : Text
  pub reason : Text

-- What a locked section gets from outside: the clock, and what `Append` gets if the section expires
-- the request and where it writes its own event.
pub record Env : Type 0 where
  pub now : ℕ
  pub expiry : AppendEnv
  pub event : AppendEnv

abbrev pub broker_actor : Actor
broker_actor = record { kind = codes "broker"; id = codes "request-sudod" }

-- The literal `events.Event{…}`: what it does not set is zero.
abbrev pub new_event : Text → Actor → EventType → Text → Event
new_event request_id actor type details = record {
  event_id = [];
  prev_hash = [];
  hash = [];
  request_id = request_id;
  timestamp = 0;
  actor = actor;
  type = type;
  details = details;
}

-- `actorIDForPeer`
unfoldable pub actor_id_for_peer : PeerIdentity → Text
actor_id_for_peer peer =
    if is_empty peer.username then codes "uid:" ++ itoa peer.uid else peer.username

-- `validateApprover`: the message of its error.
unfoldable pub validate_approver : Actor → PeerIdentity → Option Message
validate_approver approver requester =
    if is_empty approver.kind || is_empty approver.id
    then some approver_identity_required
    else if text_eq approver.id requester.username
        || text_eq approver.id (itoa requester.uid)
        || text_eq approver.id (codes "uid:" ++ itoa requester.uid)
    then some self_approval_forbidden
    else none

module _ (J : Json) where
  -- `digestRequest`. The expiry is formatted by the encoder.
  unfoldable pub digest_request : Text → ExecutionSpec → PeerIdentity → ℕ → Text
  digest_request request_id spec requester expiry = J.sha256_hex (
      J.marshal_digest (record {
        argv = spec.argv;
        env = env_slice spec.env;
        cwd = spec.cwd;
        requester_uid = requester.uid;
        request_id = request_id;
        expiry = expiry;
      }))

  -- `snap, _ = s.projection.Get(requestID)` and `FromSnapshot(snap, message)`
  unfoldable pub reply_with : Option Snapshot → Message → Response
  reply_with (some snap) message = from_snapshot snap message
  reply_with none message = zero_response message

  unfoldable pub reply : Text → Message → Exec Response
  unfolding reply_with
  reply request_id message s = (s, ok (reply_with (get s.projection request_id) message))

  -- An event with details: `MarshalDetails`, and then the two writes.
  unfoldable pub commit_details : AppendEnv → Text → Actor → EventType → Option Text → Exec Unit
  commit_details env request_id actor type none = fail marshal_failed
  commit_details env request_id actor type (some details) =
      commit J env (new_event request_id actor type details)

  -- The request that `Submit` builds.
  unfoldable pub new_request : ℕ → Text → Text → ℕ → SubmitInput → Request
  unfolding digest_request
  new_request now request_id hostname ttl input =
      let spec = build_execution_spec input.argv input.cwd in
      record {
        id = request_id;
        argv = input.argv;
        reason = input.reason;
        mode = if is_empty input.mode then codes "poll" else input.mode;
        requester = input.requester;
        host = hostname;
        created_at = now;
        expires_at = now + ttl;
        digest = digest_request request_id spec input.requester (now + ttl);
        spec = spec;
        summary = describe_request hostname input.requester input.argv input.reason;
      }

  unfoldable pub submit_argv : List Text → Env → Text → SubmitInput → Exec Response
  unfolding new_request
  submit_argv [] env request_id input s = (s, ok (plain_response [] error argv_required))
  submit_argv (_ ∷ _) env request_id input s =
      ((commit_details env.event request_id
            (record { kind = codes "requester"; id = actor_id_for_peer input.requester })
            request_created
            (J.marshal_created (new_request env.now request_id s.hostname s.ttl input)))
          >>= λ _. reply request_id approval_required)
        s

  -- `Submit`; `request_id` is the result of `randomID`.
  unfoldable pub submit : Env → Text → SubmitInput → Exec Response
  unfolding submit_argv
  submit env request_id input = submit_argv input.argv env request_id input

  unfoldable pub expire_found : Env → Text → Option Snapshot → Exec Unit
  expire_found env request_id none = pure tt
  expire_found env request_id (some snap) =
      if is_pending snap.status && not (ltb env.now snap.request.expires_at)
      then commit J env.expiry (new_event request_id broker_actor request_expired [])
      else pure tt

  -- `expireIfNeededLocked`
  unfoldable pub expire_if_needed : Env → Text → Exec Unit
  unfolding expire_found
  expire_if_needed env request_id s = expire_found env request_id (get s.projection request_id) s

  unfoldable pub status_found : Text → Option Snapshot → Exec Response
  status_found request_id none = pure (plain_response request_id error request_not_found)
  status_found request_id (some snap) = pure (from_snapshot snap status_retrieved)

  -- `Status`
  unfoldable pub status : Env → Text → Exec Response
  unfolding status_found
  status env request_id = expire_if_needed env request_id >>= λ _.
      λ s. status_found request_id (get s.projection request_id) s
