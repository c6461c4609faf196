-- ===== src/Protocol.antt =====
-- internal/protocol/wire.go: the messages on the two Unix sockets.
use request_sudo.Base.{Text, List, Option, none, some, []}
use request_sudo.Base.Int.{ℤ}
use request_sudo.Core.{Status, unset, Actor, ApprovalSummary, ExecutionResult}
use request_sudo.Events.{Failure}
use request_sudo.Projection.{Snapshot}

-- The string constants `Action…`; any other string is `other`.
pub data Action : Type 0 where
  request_submit request_status request_execute review_approve review_deny : Action
  other : Text → Action

-- `Request`
pub record WireRequest : Type 0 where
  pub action : Action
  pub argv : List Text
  pub reason : Text
  pub mode : Text
  pub request_id : Text
  pub approver : Actor
  pub approval_code : Text
  pub cwd : Text

-- The texts of `Response.Message`, one constructor for each.
pub data Message : Type 0 where
  argv_required approval_required status_retrieved request_not_found request_not_pending : Message
  request_approved request_denied : Message
  already_executing already_terminal not_approved request_executed : Message
  approver_identity_required self_approval_forbidden : Message
  submit_wrong_lane status_wrong_lane execute_wrong_lane approve_wrong_lane deny_wrong_lane :
      Message
  review_peer_refused : Message
  unsupported_action : Text → Message
  executor_error : Text → Message
  service_error : Failure → Message

pub record Response : Type 0 where
  pub request_id : Text
  pub status : Status
  pub message : Message
  pub summary : Option ApprovalSummary
  pub exit_code : Option ℤ
  pub stdout : Text
  pub stderr : Text
  pub digest : Text

-- A `Response` literal with only these fields.
abbrev pub plain_response : Text → Status → Message → Response
plain_response request_id status message = record {
  request_id = request_id;
  status = status;
  message = message;
  summary = none;
  exit_code = none;
  stdout = [];
  stderr = [];
  digest = [];
}

with_execution : Option ExecutionResult → Response → Response
with_execution none resp = resp
with_execution (some result) resp = record resp {
  exit_code = some result.exit_code;
  stdout = result.stdout;
  stderr = result.stderr;
}

-- `FromSnapshot`
unfoldable pub from_snapshot : Snapshot → Message → Response
unfolding with_execution
from_snapshot snapshot message = with_execution snapshot.execution (record {
  request_id = snapshot.request.id;
  status = snapshot.status;
  message = message;
  summary = some snapshot.request.summary;
  exit_code = none;
  stdout = [];
  stderr = [];
  digest = snapshot.request.digest;
})

-- `FromSnapshot` of the zero `Snapshot`, which `Get` returns beside `false`.
unfoldable pub zero_response : Message → Response
zero_response message = record {
  request_id = [];
  status = unset;
  message = message;
  summary = some (record {
    requester = [];
    host = [];
    exact_command = [];
    reason = [];
    effect = [];
    risk = [];
  });
  exit_code = none;
  stdout = [];
  stderr = [];
  digest = [];
}
