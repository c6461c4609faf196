-- ===== src/Broker/SectionsDurable.antt =====
-- internal/broker/service.go: the log against the projection, across `Execute`, `Status` and `Submit`.
use mathlib.Core.Option.{IsSome}
use request_sudo.Base.{◌≡◌, refl, ap, sym, subst, ◌∙◌, List, [], ◌∷◌, Option, none, some, Text, inr}
use request_sudo.Core.{Status, approved, executing, executed, failed, Request, ExecutionResult}
use request_sudo.Events.{
  request_created, execution_started, execution_succeeded, execution_failed, Event, ok,
}
use request_sudo.Events.Json.{Json, RoundTrips}
use request_sudo.Events.Log.{AppendEnv}
use request_sudo.Projection.{Snapshot, Projection, get, apply}
use request_sudo.Projection.Transitions.{Edge, start, succeed, fail as fail_edge}
use request_sudo.Projection.Accepts.{Decodes, created-apply}
use request_sudo.Protocol.{approval_required}
use request_sudo.Broker.State.{Service, pure}
use request_sudo.Broker.Requests.{
  Env, new_event, broker_actor, commit_details, SubmitInput, submit_argv, status_found, status,
  new_request,
}
use request_sudo.Broker.Durable.{LinesFit, IsClean, Durable}
use request_sudo.Broker.Execute.{
  begin_execute, begin_found, begin_status, start_execution, finish_execute, final_message, running,
}
use request_sudo.Broker.Guards.{then_pure}
use request_sudo.Broker.Restart.{
  accepts, commit_details-Durable, commit_reply-Durable, section-Durable,
}
use request_sudo.Broker.Sections.{
  Section, submitting, asking, approving, denying, beginning, finishing,
}
use request_sudo.Broker.ReviewDurable.{decodes_to}

-- A section's appends write and sync their whole line or cannot open the file, a submitted id is new,
-- and what is finished is executing.
abbrev pub IsReady : Section → Service → Type 0
IsReady (submitting env id input) s = IsClean env.event × (get s.projection id ≡ none)
IsReady (asking env id) s = IsClean env.expiry
IsReady (approving env input) s = IsClean env.expiry × IsClean env.event
IsReady (denying env input) s = IsClean env.expiry × IsClean env.event
IsReady (beginning env id) s = IsClean env.expiry × IsClean env.event
IsReady (finishing env id outcome) s =
    IsClean env
    × ((snap : Snapshot) × (get s.projection id ≡ some snap) × (snap.status ≡ executing))

module _ (J : Json) (laws : RoundTrips J) where
  begin_status-Durable :
      (t : Status) (env : Env) (id : Text) (snap : Snapshot) (s : Service)
      → IsClean env.event
      → get s.projection id ≡ some snap
      → snap.status ≡ t
      → LinesFit (begin_status J t env id snap s).0.log.file.lines
      → Durable J s
      → Durable J (begin_status J t env id snap s).0
  unfolding begin_status start_execution pure
  begin_status-Durable approved env id snap s clean there granted f d =
      let details =
        J.marshal_started (record { executor = s.executor.name; digest = snap.request.digest }) in
      let same =
        then_pure J (commit_details J env.event id broker_actor execution_started details)
          (pure (running snap.request)) s (λ t. refl) in
      subst (Durable J) (sym same) (
        commit_details-Durable J laws env.event id broker_actor execution_started details s clean
          (λ x e found c.
            accepts J laws (new_event id broker_actor execution_started x) e s.projection snap
              executing c there
              (subst (λ t. Edge execution_started t executing) (sym granted) start)
              (λ t. subst (λ k. Decodes J k e) (sym t) tt))
          (subst (λ (t : Service). LinesFit t.log.file.lines) same f) d)
  begin_status-Durable _ env id snap s clean there granted f d = d

  pub begin-Durable :
      (env : Env) (id : Text) (s : Service)
      → IsClean env.expiry
      → IsClean env.event
      → LinesFit (begin_execute J env id s).0.log.file.lines
      → Durable J s
      → Durable J (begin_execute J env id s).0
  unfolding begin_execute begin_found pure
  begin-Durable env id s clean clean' fits d =
      section-Durable J laws env id (begin_found J env id) s clean (λ snap t over. rw over) found
        fits d
    where
      found :
          (o : Option Snapshot)
          → get s.projection id ≡ o
          → LinesFit (begin_found J env id o s).0.log.file.lines
          → Durable J (begin_found J env id o s).0
      found none there f = d
      found (some snap) there f =
          begin_status-Durable snap.status env id snap s clean' there refl f d

  pub status-Durable :
      (env : Env) (id : Text) (s : Service)
      → IsClean env.expiry
      → LinesFit (status J env id s).0.log.file.lines
      → Durable J s
      → Durable J (status J env id s).0
  unfolding status status_found pure
  status-Durable env id s clean fits d =
      section-Durable J laws env id (status_found J id) s clean (λ snap t over. refl) found fits d
    where
      found :
          (o : Option Snapshot)
          → get s.projection id ≡ o
          → LinesFit (status_found J id o s).0.log.file.lines
          → Durable J (status_found J id o s).0
      found none there f = d
      found (some snap) there f = d

  pub finish-Durable :
      (env : AppendEnv) (id : Text) (result : ExecutionResult) (exec_error : Option Text)
      (snap : Snapshot) (s : Service)
      → IsClean env
      → get s.projection id ≡ some snap
      → snap.status ≡ executing
      → LinesFit (finish_execute J env id (result, exec_error) s).0.log.file.lines
      → Durable J s
      → Durable J (finish_execute J env id (result, exec_error) s).0
  unfolding finish_execute
  finish-Durable env id result none snap s clean there busy f d =
      commit_reply-Durable J laws env id broker_actor execution_succeeded
        (J.marshal_finished result) (final_message none) s clean
        (λ x e found c.
          accepts J laws (new_event id broker_actor execution_succeeded x) e s.projection snap
            executed c there (subst (λ t. Edge execution_succeeded t executed) (sym busy) succeed)
            (λ t. subst (λ k. Decodes J k e) (sym t) (decoded x e found c.details)))
        f d
    where
      decoded :
          (x : Text) (e : Event)
          → J.marshal_finished result ≡ some x
          → e.details ≡ x
          → IsSome (J.unmarshal_finished e.details)
      decoded x e found same =
          decodes_to (J.unmarshal_finished e.details)
            (ap J.unmarshal_finished same ∙ laws.finished result x found)
  finish-Durable env id result (some text) snap s clean there busy f d =
      commit_reply-Durable J laws env id broker_actor execution_failed (J.marshal_finished result)
        (final_message (some text)) s clean
        (λ x e found c.
          accepts J laws (new_event id broker_actor execution_failed x) e s.projection snap failed c
            there (subst (λ t. Edge execution_failed t failed) (sym busy) fail_edge)
            (λ t.
              subst (λ k. Decodes J k e) (sym t)
                (inr (
                  decodes_to (J.unmarshal_finished e.details)
                    (ap J.unmarshal_finished c.details ∙ laws.finished result x found)))))
        f d

  pub submit_argv-Durable :
      (env : Env) (id : Text) (input : SubmitInput) (argv : List Text) (s : Service)
      → IsClean env.event
      → get s.projection id ≡ none
      → LinesFit (submit_argv J argv env id input s).0.log.file.lines
      → Durable J s
      → Durable J (submit_argv J argv env id input s).0
  unfolding submit_argv
  submit_argv-Durable env id input [] s clean fresh f d = d
  submit_argv-Durable env id input (a ∷ argv) s clean fresh f d =
      commit_reply-Durable J laws env.event id _ request_created
        (J.marshal_created (new_request J env.now id s.hostname s.ttl input)) approval_required s
        clean
        (λ x e found c.
          opens x e (new_request J env.now id s.hostname s.ttl input) found c.details c.type
            c.request_id)
        f d
    where
      opens :
          (x : Text) (e : Event) (r : Request)
          → J.marshal_created r ≡ some x
          → e.details ≡ x
          → e.type ≡ request_created
          → e.request_id ≡ id
          → (p : Projection) × (apply J s.projection e ≡ ok p)
      opens x e r found same type mine =
          created-apply J s.projection e r type (ap (get s.projection) mine ∙ fresh)
            (ap J.unmarshal_created same ∙ laws.created r x found)
