-- ===== src/Tests/Scenario.antt =====
-- A request, its events and its snapshots.
use request_sudo.Base.{[], ◌∷◌, some, Text, codes}
use request_sudo.Core.{approved, expired, executing, Actor, PeerIdentity, Request}
use request_sudo.Events.{
  EventType, request_created, request_approved, request_expired, execution_started, Event,
}
use request_sudo.Projection.{Snapshot, Projection, created, stamp}
use request_sudo.Tests.Sample.{request, approval}

abbrev pub rid : Text
rid = codes "r"

abbrev pub ann : Actor
ann = record { kind = codes "local"; id = codes "ann" }

abbrev pub bob : PeerIdentity
bob = record { uid = 7; gid = 7; pid = 1; username = codes "bob" }

abbrev pub asked : Request
asked = record {
  id = rid;
  argv = codes "ls" ∷ [];
  reason = [];
  mode = codes "poll";
  requester = bob;
  host = codes "h";
  created_at = 10;
  expires_at = 20;
  digest = codes "d";
  spec = record { argv = codes "ls" ∷ []; env = []; cwd = codes "/" };
  summary = record {
    requester = codes "bob";
    host = codes "h";
    exact_command = codes "ls";
    reason = [];
    effect = [];
    risk = [];
  };
}

abbrev pub make_event : EventType → Text → Event
make_event type details = record {
  event_id = codes "e";
  prev_hash = [];
  hash = codes "h";
  request_id = rid;
  timestamp = 11;
  actor = ann;
  type = type;
  details = details;
}

abbrev pub creation : Event
creation = make_event request_created (request.enc asked)

abbrev pub grant : Event
grant = make_event request_approved (approval.enc (record { approver = ann; approval_code = [] }))

abbrev pub launch : Event
launch = make_event execution_started []

abbrev pub lapse : Event
lapse = make_event request_expired []

abbrev pub waiting_snap : Snapshot
waiting_snap = created creation asked

abbrev pub granted_snap : Snapshot
granted_snap = stamp grant (record waiting_snap { status = approved; approver = some ann })

abbrev pub lapsed_snap : Snapshot
lapsed_snap = stamp lapse (record waiting_snap { status = expired })

abbrev pub running_snap : Snapshot
running_snap = stamp launch (record granted_snap { status = executing })

abbrev pub holding : Snapshot → Projection
holding snap = record { requests = (rid, snap) ∷ [] }
