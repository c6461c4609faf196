-- ===== src/Broker/Execute.antt =====
-- internal/broker/service.go: `Execute`, recovery and `NewService`.
use request_sudo.Base.{ℕ, List, [], ◌∷◌, Option, none, some, Text, codes, if◌then◌else◌}
use request_sudo.Core.{
  Status, pending, approved, denied, expired, executing, executed, failed, revoked, rejected, error,
  Request, ExecutionResult,
}
use request_sudo.Events.{
  EventType, execution_started, execution_succeeded, execution_failed, recovery_marked_failed,
  Result, ok, err, ◌>>=◌ as bind,
}
use request_sudo.Events.Json.{Json}
use request_sudo.Events.Log.{Log, AppendEnv, replay}
use request_sudo.Projection.{Snapshot, Projection, get, all, is_executing, rebuild}
use request_sudo.Execution.{Executor}
use request_sudo.Protocol.{
  Message, request_not_found, already_executing, already_terminal, not_approved, request_executed,
  executor_error, Response, plain_response, from_snapshot,
}
use request_sudo.Broker.State.{Service, Exec, pure, ◌>>=◌}
use request_sudo.Broker.Requests.{Env, broker_actor, expire_if_needed, commit_details, reply}

-- How the first section of `Execute` ends: with a response, or with a request to run.
pub data Begun : Type 0 where
  replied : Response → Begun
  running : Request → Begun

-- The type and the message of the event that ends an execution, by the executor's error.
abbrev pub final_type : Option Text → EventType
final_type none = execution_succeeded
final_type (some text) = execution_failed

abbrev pub final_message : Option Text → Message
final_message none = request_executed
final_message (some text) = executor_error text

module _ (J : Json) where
  -- `execution_started` is written, and the request is handed to the executor.
  unfoldable pub start_execution : Env → Text → Snapshot → Exec Begun
  start_execution env request_id snap s =
      ((commit_details J env.event request_id broker_actor execution_started (
            J.marshal_started
              (record { executor = s.executor.name; digest = snap.request.digest })))
          >>= λ _. pure (running snap.request))
        s

  -- The `switch snap.Status`
  unfoldable pub begin_status : Status → Env → Text → Snapshot → Exec Begun
  unfolding start_execution
  begin_status executing env request_id snap = pure (replied (from_snapshot snap already_executing))
  begin_status executed env request_id snap = pure (replied (from_snapshot snap already_terminal))
  begin_status failed env request_id snap = pure (replied (from_snapshot snap already_terminal))
  begin_status denied env request_id snap = pure (replied (from_snapshot snap not_approved))
  begin_status expired env request_id snap = pure (replied (from_snapshot snap not_approved))
  begin_status revoked env request_id snap = pure (replied (from_snapshot snap not_approved))
  begin_status pending env request_id snap =
      pure (replied (record (from_snapshot snap not_approved) { status = rejected }))
  begin_status approved env request_id snap = start_execution env request_id snap
  begin_status _ env request_id snap = pure (replied (from_snapshot snap not_approved))

  unfoldable pub begin_found : Env → Text → Option Snapshot → Exec Begun
  unfolding begin_status
  begin_found env request_id none =
      pure (replied (plain_response request_id error request_not_found))
  begin_found env request_id (some snap) = begin_status snap.status env request_id snap

  -- `Execute` up to the call of the executor.
  unfoldable pub begin_execute : Env → Text → Exec Begun
  unfolding begin_found
  begin_execute env request_id = expire_if_needed J env request_id >>= λ _.
      λ s. begin_found env request_id (get s.projection request_id) s

  -- `Execute` from the executor's return on.
  unfoldable pub finish_execute : AppendEnv → Text → ExecutionResult × Option Text → Exec Response
  finish_execute env request_id (result, exec_error) =
      commit_details J env request_id broker_actor (final_type exec_error)
        (J.marshal_finished result)
      >>= λ _. reply J request_id (final_message exec_error)

  unfoldable pub finish_begun : AppendEnv → Text → Begun → Exec Response
  unfolding finish_execute
  finish_begun env request_id (replied response) s = (s, ok response)
  finish_begun env request_id (running request) s =
      finish_execute env request_id (s.executor.execute request) s

  -- `Execute`, where no other section runs between its two locked sections, that is, while the executor
  -- runs the command. Broker.Sections has them as two steps, with any others between them.
  unfoldable pub execute : Env → AppendEnv → Text → Exec Response
  unfolding begin_execute finish_begun
  execute env finish_env request_id =
      begin_execute env request_id >>= λ begun. finish_begun finish_env request_id begun

  -- The loop of `recoverExecutingLocked`. Each request has an append of its own.
  unfoldable pub recover_all : (Text → AppendEnv) → List Snapshot → Exec Unit
  recover_all envs [] = pure tt
  recover_all envs (snap ∷ snaps) =
      (if is_executing snap.status
        then commit_details J (envs snap.request.id) snap.request.id broker_actor
            recovery_marked_failed
            (J.marshal_recovery (codes "broker restarted while execution was in flight"))
        else pure tt)
      >>= λ _. recover_all envs snaps

  -- `recoverExecutingLocked`
  unfoldable pub recover_executing : (Text → AppendEnv) → Exec Unit
  unfolding recover_all
  recover_executing envs s = recover_all envs (all s.projection) s

  -- The projection that `NewService` rebuilds from the log.
  unfoldable pub load : Log → Result Projection
  load log = bind (replay J log.file) (rebuild J)

  -- `NewService`, with the options that its caller gives. The log may have grown when recovery fails.
  unfoldable pub new_service : (Text → AppendEnv) → Executor → ℕ → Text → Log → Log × Result Service
  unfolding recover_executing load
  new_service envs executor ttl hostname log = elim (load log) [
    | err x ↦ (log, err x)
    | ok projection ↦
        let (s, r) = recover_executing envs (record {
          log = log;
          projection = projection;
          executor = executor;
          ttl = ttl;
          hostname = hostname;
        }) in
        elim r [ err x ↦ (s.log, err x) | ok _ ↦ (s.log, ok s) ]
  ]
