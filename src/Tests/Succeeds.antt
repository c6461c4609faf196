-- ===== src/Tests/Succeeds.antt =====
-- The theorems about operations that succeed, at a concrete service.
use request_sudo.Base.{
  ◌≡◌, ◌≢◌, refl, [], ◌∷◌, none, some, Text, codes, lookup, insert, text_eq, itoa, sort_texts, keys,
  arith, text_eq_iff,
}
use request_sudo.Base.Int.{pos}
use request_sudo.Core.{approved, executed, failed, executing, ExecutionResult}
use request_sudo.Events.{
  Event, ok, request_approved, request_created, execution_started, execution_succeeded,
  recovery_marked_failed,
}
use request_sudo.Events.Log.{Log, append}
use request_sudo.Projection.{Snapshot, get, stamp, all, apply}
use request_sudo.Protocol.{Response, from_snapshot, request_executed, WireRequest, review_approve}
use request_sudo.Protocol
use request_sudo.Broker.State.{◌>>=◌, commit, pure}
use request_sudo.Broker.Requests.{
  new_event, broker_actor, commit_details, new_request, validate_approver, actor_id_for_peer,
}
use request_sudo.Broker.Review.{approve}
use request_sudo.Broker.Execute.{execute, recover_executing}
use request_sudo.Broker.Succeeds.{approve_succeeds, execute_succeeds}
use request_sudo.Broker.Recovery.{Keyed, recovered_none_executing}
use request_sudo.Tests.Sample.{sample, sample-RoundTrips, request, approval, result, event, total}
use request_sudo.Tests.Scenario.{rid, ann, bob, waiting_snap, granted_snap, running_snap, holding}
use request_sudo.Tests.Logs.{empty_log, works}
use request_sudo.Tests.Brokers.{service, at, review, asking_for}

-- An event as the first `append` to the empty log completes it.
abbrev pub sealed : Event → Event
sealed e =
    let e' = record e { event_id = codes "x"; timestamp = 5; prev_hash = []; hash = [] } in
    record e' { hash = total (event.enc e') ∷ [] }

abbrev pub approval_text : Text
approval_text = approval.enc (record { approver = ann; approval_code = [] })

abbrev pub approval_event : Event
approval_event = new_event rid ann request_approved approval_text

pub appended_approval :
    append sample works approval_event empty_log
    ≡ ((append sample works approval_event empty_log).0, ok (sealed approval_event))
unfolding append
appended_approval = refl

approve_succeeds_example :
    (snap' : Snapshot) × (get
        (approve sample (at 15) review (service (holding waiting_snap))).0.projection
        rid
      ≡ some snap')
    × (snap'.status ≡ approved)
    × (snap'.request ≡ waiting_snap.request)
    × ((approve sample (at 15) review (service (holding waiting_snap))).1
        ≡ ok (from_snapshot snap' Protocol.request_approved))
unfolding get lookup text_eq validate_approver itoa
approve_succeeds_example =
    approve_succeeds sample sample-RoundTrips (at 15) review (service (holding waiting_snap))
      waiting_snap approval_text (append sample works approval_event empty_log).0
      (sealed approval_event) refl refl (omega arith) refl refl appended_approval

abbrev started_event : Event
started_event = new_event rid broker_actor execution_started (codes "d")

abbrev started_log : Log
started_log = (append sample works started_event empty_log).0

appended_started :
    append sample works started_event empty_log ≡ (started_log, ok (sealed started_event))
unfolding append
appended_started = refl

abbrev outcome : ExecutionResult
outcome = record { started_at = 1; finished_at = 2; exit_code = pos 0; stdout = []; stderr = [] }

abbrev finished_event : Event
finished_event = new_event rid broker_actor execution_succeeded (result.enc outcome)

abbrev finished_sealed : Event
finished_sealed =
    let e = record finished_event {
      event_id = codes "x";
      timestamp = 5;
      prev_hash = (sealed started_event).hash;
    } in
    record e { hash = total (event.enc e) ∷ [] }

appended_finished :
    append sample works finished_event started_log
    ≡ ((append sample works finished_event started_log).0, ok finished_sealed)
unfolding append
appended_finished = refl

execute_succeeds_example :
    (snap' : Snapshot) × (get
        (execute sample (at 16) works rid (service (holding granted_snap))).0.projection
        rid
      ≡ some snap')
    × (snap'.status ≡ executed)
    × (snap'.request ≡ granted_snap.request)
    × ((execute sample (at 16) works rid (service (holding granted_snap))).1
        ≡ ok (from_snapshot snap' request_executed))
unfolding get lookup text_eq
execute_succeeds_example =
    execute_succeeds sample sample-RoundTrips (at 16) works rid (service (holding granted_snap))
      granted_snap outcome none (codes "d") (result.enc outcome) started_log
      (append sample works finished_event started_log).0 (sealed started_event) finished_sealed refl
      refl refl refl appended_started refl appended_finished

abbrev asked_text : Text
asked_text = request.enc (new_request sample 10 rid (codes "h") 10 asking_for)

abbrev asked_event : Event
asked_event =
    new_event rid (record { kind = codes "requester"; id = actor_id_for_peer bob }) request_created
      asked_text

running-Keyed : Keyed (holding running_snap)
unfolding get lookup
running-Keyed id snap h = ground (arith, text_eq_iff rid id)

abbrev recovery_event : Event
recovery_event =
    new_event rid broker_actor recovery_marked_failed
      (codes "broker restarted while execution was in flight")

abbrev recovered_snap : Snapshot
recovered_snap = stamp (sealed recovery_event) (record running_snap { status = failed })

recovers : (recover_executing sample (λ id. works) (service (holding running_snap))).1 ≡ ok tt
unfolding recover_executing append get lookup all sort_texts keys text_eq ◌>>=◌ commit_details
    commit apply pure insert
recovers = refl

recovered_there :
    get (recover_executing sample (λ id. works) (service (holding running_snap))).0.projection rid
    ≡ some recovered_snap
unfolding recover_executing append get lookup all sort_texts keys text_eq ◌>>=◌ commit_details
    commit apply pure insert
recovered_there = refl

recovered_none_executing_example : recovered_snap.status ≢ executing
recovered_none_executing_example =
    recovered_none_executing sample (λ id. works) (service (holding running_snap)) rid
      recovered_snap running-Keyed recovers recovered_there
