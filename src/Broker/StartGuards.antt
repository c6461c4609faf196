-- ===== src/Broker/StartGuards.antt =====
-- internal/broker/service.go: the guards of the start of `Execute`.
use request_sudo.Base.{◌≡◌, refl, Option, none, some, Text}
use request_sudo.Core.{Status, approved}
use request_sudo.Events.{execution_started, Event, Failure, Result, ok, err}
use request_sudo.Events.Json.{Json}
use request_sudo.Projection.{Snapshot, Projection, get, apply}
use request_sudo.Protocol.{Response}
use request_sudo.Broker.State.{Service, pure, fail, continue, ◌>>=◌}
use request_sudo.Broker.Requests.{Env, new_event, broker_actor, commit_details}
use request_sudo.Broker.Execute.{
  Begun, replied, running, start_execution, begin_status, begin_found, begin_execute,
}
use request_sudo.Broker.Effects.{
  Moves, stays, moves, Commits, no_append, no_apply, written, commit-Commits, Expires, Expiry,
  not_due, was_due, not_written, expire-Expiry,
}

module _ (J : Json) where
  -- The start event: the request is approved.
  pub record Starts (request_id : Text) (p : Projection) (e : Event) : Type 0 where
    pub type_is : e.type ≡ execution_started
    pub mine : e.request_id ≡ request_id
    pub snap : Snapshot
    pub there : get p request_id ≡ some snap
    pub granted : snap.status ≡ approved

  -- How the first section of `Execute` ends. A request is handed to the executor only after its start
  -- event has been written, and that only where it was approved.
  pub data Begins (env : Env) (id : Text) (s : Service) : Service × Result Begun → Type 0 where
    refused :
        (t : Service) (response : Response)
        → Moves J (Expires J env id s.projection) s.projection t.projection
        → Begins env id s (t, ok (replied response))
    broken :
        (t : Service) (x : Failure)
        → Moves J (Expires J env id s.projection) s.projection t.projection
        → Begins env id s (t, err x)
    started :
        (t : Service) (e : Event) (start : Starts id s.projection e)
        → apply J s.projection e ≡ ok t.projection
        → t.executor ≡ s.executor
        → Begins env id s (t, ok (running start.snap.request))

  module _ (env : Env) (id : Text) (snap : Snapshot) (s : Service)
      (there : get s.projection id ≡ some snap) where
    start-Begins : snap.status ≡ approved → Begins env id s (start_execution J env id snap s)
    unfolding start_execution commit_details fail pure ◌>>=◌
    start-Begins granted =
        at_details
          (J.marshal_started (record { executor = s.executor.name; digest = snap.request.digest }))
      where
        at_commit :
            (d : Text) {q : Service × Result (Unit {0})}
            → Commits J env.event (new_event id broker_actor execution_started d) s q
            → Begins env id s (continue q.1 (λ _. pure (running snap.request)) q.0)
        at_commit d (no_append log x a) = broken (record s { log = log }) x stays
        at_commit d (no_apply log e x a c b) = broken (record s { log = log }) x stays
        at_commit d (written log e p a c b) =
            started (record s { log = log; projection = p }) e
              (record {
                type_is = c.type;
                mine = c.request_id;
                snap = snap;
                there = there;
                granted = granted;
              })
              b refl

        at_details :
            (o : Option Text)
            → Begins env id s (
                (commit_details J env.event id broker_actor execution_started o >>= λ _.
                pure (running snap.request))
                  s)
        at_details none = broken s _ stays
        at_details (some d) =
            at_commit d
              (commit-Commits J env.event (new_event id broker_actor execution_started d) s)

    status-Begins :
        (t : Status) → snap.status ≡ t → Begins env id s (begin_status J t env id snap s)
    unfolding begin_status pure
    status-Begins approved h = start-Begins h
    status-Begins _ h = refused s _ stays

  found-Begins :
      (env : Env) (id : Text) (s : Service) (o : Option Snapshot)
      → get s.projection id ≡ o
      → Begins env id s (begin_found J env id o s)
  unfolding begin_found pure
  found-Begins env id s none h = refused s _ stays
  found-Begins env id s (some snap) h = status-Begins env id snap s h snap.status refl

  -- The first section of `Execute` hands a request to the executor only if its status is approved and
  -- its start event has been applied; then it is the frozen request of the snapshot and the executor
  -- is the service's own. Otherwise it answers or fails, and the projection changes by the expiry of
  -- the request, if that is due, at most.
  pub begin-Begins :
      (env : Env) (id : Text) (s : Service) → Begins env id s (begin_execute J env id s)
  unfolding begin_execute pure ◌>>=◌
  begin-Begins env id s = go (expire-Expiry J env id s)
    where
      go :
          {q : Service × Result (Unit {0})}
          → Expiry J env id s q
          → Begins env id s (continue q.1 (λ _ t. begin_found J env id (get t.projection id) t) q.0)
      go (not_due early) = found-Begins env id s (get s.projection id) refl
      go (was_due t e snap' x ex a now over) = rw (now, over) (refused t _ (moves e ex a))
      go (not_written log x) = broken (record s { log = log }) x stays
