-- ===== src/Broker/Opens.antt =====
-- internal/broker/service.go: `Submit`, where each call that it makes succeeds.
use request_sudo.Base.{◌≡◌, some, Text}
use request_sudo.Core.{pending, Request}
use request_sudo.Events.{Result, ok}
use request_sudo.Events.Json.{Json}
use request_sudo.Events.Log.{Log}
use request_sudo.Projection.{Snapshot, get}
use request_sudo.Protocol.{Response, from_snapshot, approval_required}
use request_sudo.Broker.State.{Service}

module _ (J : Json) where
  -- The end of a `Submit` that opens the request `r`.
  abbrev Opens : Text → Request → Service × Result Response → Type 0
  Opens id r q =
      (snap : Snapshot) × (get q.0.projection id ≡ some snap)
      × (snap.status ≡ pending)
      × (snap.request ≡ r)
      × (q.1 ≡ ok (from_snapshot snap approval_required))
