-- ===== src/Broker/Kinds.antt =====
-- internal/broker/service.go: the kinds of event that an operation writes.
use request_sudo.Base.{
  ◌≡◌, refl, ap, sym, subst, ◌∙◌, Bool, false, List, [], ◌∷◌, Option, none, some, Text,
}
use request_sudo.Core.{Actor, ExecutionResult}
use request_sudo.Events.{EventType, request_created, request_expired, Event}
use request_sudo.Events.Json.{Json}
use request_sudo.Events.Log.{AppendEnv}
use request_sudo.Projection.{Snapshot, Projection}
use request_sudo.Protocol.{Message, approval_required}
use request_sudo.Broker.State.{Service, pure, ◌>>=◌}
use request_sudo.Broker.Requests.{
  Env, SubmitInput, submit_argv, submit, status_found, status, commit_details, reply, broker_actor,
}
use request_sudo.Broker.Execute.{finish_execute, final_type, final_message}
use request_sudo.Broker.Effects.{Moves, stays, moves, Expires}
use request_sudo.Broker.Guards.{commit_details-Moves, then_pure, reply_same, section-Moves}

-- The event is of none of these kinds.
abbrev pub IsNot : (EventType → Bool) → Event → Type 0
IsNot kind e = kind e.type ≡ false

module _ (J : Json) where
  pub Moves-map :
      {G H : Event → Type 0} {p p' : Projection}
      → ((e : Event) → G e → H e)
      → Moves J G p p'
      → Moves J H p p'
  Moves-map f stays = stays
  Moves-map f (moves e g a) = moves e (f e g) a

  module _ (kind : EventType → Bool) (expiry : kind request_expired ≡ false) where
    pub Expires-IsNot :
        (env : Env) (id : Text) (p : Projection) (e : Event) → Expires J env id p e → IsNot kind e
    Expires-IsNot env id p e x = ap kind x.type ∙ expiry

    pub commit-IsNot :
        (env : AppendEnv) (id : Text) (actor : Actor) (type : EventType) (o : Option Text)
        (message : Message) (s : Service)
        → kind type ≡ false
        → Moves J
            (IsNot kind)
            s.projection
            ((commit_details J env id actor type o >>= λ _. reply J id message) s).0.projection
    commit-IsNot env id actor type o message s other =
        subst (λ (u : Service). Moves J (IsNot kind) s.projection u.projection)
          (sym (
            then_pure J (commit_details J env id actor type o) (reply J id message) s
              (reply_same J id message)))
          (commit_details-Moves J (IsNot kind) env id actor type o s
            (λ d e found c. ap kind c.type ∙ other))

    submit_argv-IsNot :
        (env : Env) (id : Text) (input : SubmitInput) (argv : List Text) (s : Service)
        → kind request_created ≡ false
        → Moves J (IsNot kind) s.projection (submit_argv J argv env id input s).0.projection
    unfolding submit_argv
    submit_argv-IsNot env id input [] s other = stays
    submit_argv-IsNot env id input (a ∷ argv) s other =
        commit-IsNot env.event id _ request_created _ approval_required s other

    pub submit-IsNot :
        (env : Env) (id : Text) (input : SubmitInput) (s : Service)
        → kind request_created ≡ false
        → Moves J (IsNot kind) s.projection (submit J env id input s).0.projection
    unfolding submit
    submit-IsNot env id input s other = submit_argv-IsNot env id input input.argv s other

    pub status-IsNot :
        (env : Env) (id : Text) (s : Service)
        → Moves J (IsNot kind) s.projection (status J env id s).0.projection
    unfolding status status_found pure
    status-IsNot env id s =
        section-Moves J (IsNot kind) env id (status_found J id) s
          (Expires-IsNot env id s.projection) (λ snap t over. refl) (λ o there early. at o)
      where
        at :
            (o : Option Snapshot)
            → Moves J (IsNot kind) s.projection (status_found J id o s).0.projection
        at none = stays
        at (some snap) = stays

    -- The end of an execution.
    pub finish-IsNot :
        (env : AppendEnv) (id : Text) (result : ExecutionResult) (exec_error : Option Text)
        (s : Service)
        → kind (final_type exec_error) ≡ false
        → Moves J
            (IsNot kind)
            s.projection
            (finish_execute J env id (result, exec_error) s).0.projection
    unfolding finish_execute
    finish-IsNot env id result exec_error s other =
        commit-IsNot env id broker_actor (final_type exec_error) _ (final_message exec_error) s
          other
