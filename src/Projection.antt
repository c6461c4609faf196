-- ===== src/Projection.antt =====
-- internal/projection/projection.go: the state of every request, as the events of the log make it.
pub mod Transitions
pub mod Accepts
pub mod Counts
pub mod Frozen
pub mod Rebuild
use request_sudo.Base.{
  ℕ, Bool, true, false, ◌||◌, List, [], ◌∷◌, Option, none, some, Text, Map, lookup, insert, keys,
  sort_texts, is_empty, if◌then◌else◌,
}
use request_sudo.Core.{
  Status, pending, approved, denied, expired, executing, executed, failed, revoked, Actor, Request,
  ExecutionResult,
}
use request_sudo.Events.{
  EventType, request_created, request_approved, request_denied, request_expired, request_revoked,
  execution_started, execution_succeeded, execution_failed, recovery_marked_failed, other, Event,
  Result, ok, err, ◌>>=◌, or_fail, already_exists, not_found, invalid_from, decode_details,
  unsupported,
}
use request_sudo.Events.Json.{Json}

-- `core.Snapshot`
pub record Snapshot : Type 0 where
  pub request : Request
  pub status : Status
  pub approver : Option Actor
  pub deny_reason : Text
  pub execution : Option ExecutionResult
  pub last_event_type : EventType
  pub last_event_at : ℕ
  pub last_event_hash : Text

pub record Projection : Type 0 where
  pub requests : Map Snapshot

-- `New`
abbrev pub new : Projection
new = record { requests = [] }

abbrev pub is_pending : Status → Bool
is_pending pending = true
is_pending _ = false

abbrev pub is_approved : Status → Bool
is_approved approved = true
is_approved _ = false

abbrev pub is_executing : Status → Bool
is_executing executing = true
is_executing _ = false

-- The three assignments that end `Apply`.
abbrev pub stamp : Event → Snapshot → Snapshot
stamp event snap = record snap {
  last_event_type = event.type;
  last_event_at = event.timestamp;
  last_event_hash = event.hash;
}

-- The snapshot that a `request_created` event starts with.
abbrev pub created : Event → Request → Snapshot
created event request = record {
  request = request;
  status = pending;
  approver = none;
  deny_reason = [];
  execution = none;
  last_event_type = event.type;
  last_event_at = event.timestamp;
  last_event_hash = event.hash;
}

-- `Get`
unfoldable pub get : Projection → Text → Option Snapshot
get p request_id = lookup request_id p.requests

unfoldable pub collect : Map Snapshot → List Text → List Snapshot
collect m [] = []
collect m (k ∷ ks) =
    let rest = collect m ks in elim (lookup k m) [ some snap ↦ snap ∷ rest | none ↦ rest ]

-- `All`. Each key is there, so that no lookup fails.
unfoldable pub all : Projection → List Snapshot
unfolding collect
all p = collect p.requests (sort_texts (keys p.requests))

module _ (J : Json) where
  -- The result of a finished execution: `execution_failed` may come without details.
  execution_of : EventType → Event → Snapshot → Result Snapshot
  execution_of execution_failed event snap =
      if is_empty event.details
      then ok snap
      else or_fail decode_details (J.unmarshal_finished event.details) >>= λ result.
          ok (record snap { execution = some result })
  execution_of _ event snap = ok snap

  -- The second `switch` of `Apply`, on the snapshot of the event's request.
  unfoldable pub transition : EventType → Event → Snapshot → Result Snapshot
  unfolding execution_of
  transition request_approved event snap =
      if is_pending snap.status
      then (or_fail decode_details (J.unmarshal_approval event.details) >>= λ details.
          ok (record snap { status = approved; approver = some details.approver }))
      else err (invalid_from request_approved snap.status)
  transition request_denied event snap =
      if is_pending snap.status
      then (or_fail decode_details (J.unmarshal_denial event.details) >>= λ details.
          ok (record snap {
            status = denied;
            approver = some details.approver;
            deny_reason = details.reason;
          }))
      else err (invalid_from request_denied snap.status)
  transition request_expired event snap =
      if is_pending snap.status
      then ok (record snap { status = expired })
      else err (invalid_from request_expired snap.status)
  transition request_revoked event snap =
      if is_pending snap.status || is_approved snap.status
      then ok (record snap { status = revoked })
      else err (invalid_from request_revoked snap.status)
  transition execution_started event snap =
      if is_approved snap.status
      then ok (record snap { status = executing })
      else err (invalid_from execution_started snap.status)
  transition execution_succeeded event snap =
      if is_executing snap.status
      then (or_fail decode_details (J.unmarshal_finished event.details) >>= λ result.
          ok (record snap { status = executed; execution = some result }))
      else err (invalid_from execution_succeeded snap.status)
  transition execution_failed event snap =
      if is_executing snap.status
      then (execution_of execution_failed event snap >>= λ s. ok (record s { status = failed }))
      else err (invalid_from execution_failed snap.status)
  transition recovery_marked_failed event snap =
      if is_executing snap.status
      then (execution_of recovery_marked_failed event snap >>= λ s.
          ok (record s { status = failed }))
      else err (invalid_from recovery_marked_failed snap.status)
  transition type event snap = err (unsupported type)

  -- `Apply` by the event's type and the snapshot that is there.
  unfoldable pub apply_to : EventType → Event → Option Snapshot → Result Snapshot
  unfolding transition
  apply_to request_created event (some snap) = err (already_exists event.request_id)
  apply_to request_created event none =
      or_fail decode_details (J.unmarshal_created event.details) >>= λ request.
      ok (created event request)
  apply_to type event none = err (not_found event.request_id type)
  apply_to type event (some snap) = transition type event snap >>= λ s. ok (stamp event s)

  -- `Apply`. On an error the map is not written.
  unfoldable pub apply : Projection → Event → Result Projection
  unfolding apply_to get
  apply p event = apply_to event.type event (get p event.request_id) >>= λ snap.
      ok (record { requests = insert event.request_id snap p.requests })

  -- The loop of `Rebuild`
  unfoldable pub rebuild_from : Projection → List Event → Result Projection
  rebuild_from p [] = ok p
  rebuild_from p (event ∷ history) = apply p event >>= λ p'. rebuild_from p' history

  -- `Rebuild`
  unfoldable pub rebuild : List Event → Result Projection
  unfolding rebuild_from
  rebuild history = rebuild_from new history
