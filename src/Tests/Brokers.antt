-- ===== src/Tests/Brokers.antt =====
-- The theorems about the broker at a concrete service.
use request_sudo.Base.{
  ℕ, ◌+◌, ◌≤◌, ◌<◌, ◌≡◌, refl, List, [], ◌∷◌, Option, none, some, Text, codes, lookup, insert,
  text_eq, inl, inr,
}
use request_sudo.Base.Int.{pos}
use request_sudo.Core.{ExecutionResult, Request}
use request_sudo.Events.{Event, Result, ok, err, request_approved, request_denied}
use request_sudo.Projection.{Projection, new, rebuild, apply}
use request_sudo.Projection.Counts.{count_events, is_start}
use request_sudo.Execution.{Executor}
use request_sudo.Broker.State.{Service}
use request_sudo.Broker.Requests.{Env, SubmitInput, ReviewInput}
use request_sudo.Broker.Review.{approve, deny}
use request_sudo.Broker.Execute.{begin_execute, load}
use request_sudo.Broker.Effects.{Moves}
use request_sudo.Broker.ReviewGuards.{
  ReviewGuard, approval_of, denial_of, approve-Moves, deny-Moves,
}
use request_sudo.Broker.StartGuards.{Begins, begin-Begins}
use request_sudo.Broker.Sections.{
  beginning, submitting, run_sections, run_section, count_launches, Section,
}
use request_sudo.Broker.Launches.{at_most_one_launch}
use request_sudo.Broker.Durable.{Durable, LinesFit}
use request_sudo.Broker.RestartSafe.{restart_finds_state}
use request_sudo.Tests.Sample.{sample, sample-RoundTrips}
use request_sudo.Tests.Scenario.{
  rid, ann, bob, creation, grant, waiting_snap, granted_snap, holding,
}
use request_sudo.Tests.Logs.{empty_log, works, empty-IsSynced, below}

abbrev pub obedient : Executor
obedient = record {
  name = codes "local";
  execute = λ r. (
    record { started_at = 1; finished_at = 2; exit_code = pos 0; stdout = []; stderr = [] },
    none,
  );
}

abbrev pub service : Projection → Service
service p = record {
  log = empty_log;
  projection = p;
  executor = obedient;
  ttl = 10;
  hostname = codes "h";
}

abbrev pub at : ℕ → Env
at now = record { now = now; expiry = works; event = works }

abbrev pub review : ReviewInput
review = record { request_id = rid; approver = ann; approval_code = []; reason = [] }

approve-Moves_example :
    Moves sample
      (ReviewGuard sample request_approved
        (approval_of sample review)
        (at 15)
        review
        (holding waiting_snap))
      (holding waiting_snap)
      (approve sample (at 15) review (service (holding waiting_snap))).0.projection
approve-Moves_example = approve-Moves sample (at 15) review (service (holding waiting_snap))

deny-Moves_example :
    Moves sample
      (ReviewGuard sample request_denied
        (denial_of sample review)
        (at 15)
        review
        (holding waiting_snap))
      (holding waiting_snap)
      (deny sample (at 15) review (service (holding waiting_snap))).0.projection
deny-Moves_example = deny-Moves sample (at 15) review (service (holding waiting_snap))

begin-Begins_example :
    Begins sample
      (at 16)
      rid
      (service (holding granted_snap))
      (begin_execute sample (at 16) rid (service (holding granted_snap)))
begin-Begins_example = begin-Begins sample (at 16) rid (service (holding granted_snap))

at_most_one_launch_example :
    count_events is_start rid (creation ∷ grant ∷ [])
      + count_launches rid
          (run_sections sample
            (beginning (at 16) rid ∷ beginning (at 17) rid ∷ [])
            (service (holding granted_snap))).1
    ≤ 1
unfolding rebuild apply lookup insert text_eq
at_most_one_launch_example =
    at_most_one_launch sample (creation ∷ grant ∷ []) (service (holding granted_snap))
      (beginning (at 16) rid ∷ beginning (at 17) rid ∷ []) rid refl

abbrev pub asking_for : SubmitInput
asking_for = record {
  argv = codes "ls" ∷ [];
  reason = [];
  mode = [];
  requester = bob;
  cwd = codes "/";
}

empty-Durable : Durable sample (service new)
unfolding rebuild
empty-Durable = record { history = []; synced = empty-IsSynced; rebuilt = refl }

abbrev first_section : Section
first_section = submitting (at 10) rid asking_for

first_lines : LinesFit (run_section sample first_section (service new)).0.log.file.lines
unfolding request_sudo.Projection.get lookup run_section request_sudo.Broker.Requests.submit
    request_sudo.Broker.Requests.submit_argv request_sudo.Broker.Requests.new_request
    request_sudo.Broker.Requests.digest_request request_sudo.Broker.State.◌>>=◌
    request_sudo.Broker.Requests.commit_details request_sudo.Broker.State.commit
    request_sudo.Broker.State.appended request_sudo.Broker.State.applied
    request_sudo.Events.Log.append apply request_sudo.Execution.build_execution_spec
    request_sudo.Execution.env_slice request_sudo.Execution.default_sanitized_env
    request_sudo.Execution.normalize_cwd request_sudo.Execution.clean_abs
    request_sudo.Base.Trim.trim_space request_sudo.Core.Describe.describe_request
    request_sudo.Core.Describe.peer_label request_sudo.Base.Trim.join text_eq
    request_sudo.Broker.Requests.reply insert request_sudo.Base.keys request_sudo.Base.sort_texts
    request_sudo.Base.itoa request_sudo.Base.text_le request_sudo.Events.Log.complete
    request_sudo.Events.Log.hash_envelope request_sudo.Broker.Requests.actor_id_for_peer
    request_sudo.Execution.split_path request_sudo.Execution.clean_parts
    request_sudo.Execution.clean_part request_sudo.Execution.rooted
    request_sudo.Base.Trim.is_ascii_space
first_lines = (below _ _ refl, tt)

restart_finds_state_example :
    Durable sample (run_section sample first_section (service new)).0
    × (load sample (run_section sample first_section (service new)).0.log
        ≡ ok (run_section sample first_section (service new)).0.projection)
unfolding request_sudo.Projection.get lookup
restart_finds_state_example =
    restart_finds_state sample sample-RoundTrips first_section (service new) (inl refl, refl)
      first_lines empty-Durable
