-- ===== src/Broker/Succeeds.antt =====
-- internal/broker/service.go: `Approve` and `Execute`, where each call that they make succeeds.
use request_sudo.Base.{
  ℕ, ◌<◌, ◌≡◌, refl, ap, sym, subst, ◌∙◌, Bool, true, false, not, ◌&&◌, ltb, [], ◌∷◌, Option, none,
  some, some-eq-some, Text, arith, inr,
}
use request_sudo.Core.{Status, pending, approved, executing, executed, failed, ExecutionResult}
use request_sudo.Events.{request_approved, execution_started, Event, ok}
use request_sudo.Events.Json.{Json, RoundTrips}
use request_sudo.Events.Log.{Log, AppendEnv, append}
use request_sudo.Projection.{Snapshot, Projection, get, apply, is_pending, rebuild_from}
use request_sudo.Projection.Transitions.{
  Edge, approve as approve_edge, start, succeed, fail as fail_edge,
}
use request_sudo.Projection.Accepts.{Decodes, Edge-apply}
use request_sudo.Projection.Frozen.{rebuild_from_keeps_request}
use request_sudo.Protocol.{Message, Response, from_snapshot, approval_required}
use request_sudo.Protocol
use request_sudo.Broker.State.{Service, pure, commit, ◌>>=◌}
use request_sudo.Broker.Requests.{
  Env, ReviewInput, new_event, validate_approver, broker_actor, commit_details, expire_found,
  expire_if_needed, reply, reply_with,
}
use request_sudo.Broker.Review.{approve, approve_found, approve_valid}
use request_sudo.Broker.Execute.{
  begin_execute, begin_found, begin_status, start_execution, execute, finish_begun, finish_execute,
  final_type, final_message,
}
use request_sudo.Broker.Effects.{Completes, append-Completes}
use request_sudo.Broker.ReviewGuards.{approval_of}
use request_sudo.Broker.ReviewDurable.{decodes_to}

module _ (J : Json) where
  -- What a write that follows an edge leaves behind.
  record Follows (env : AppendEnv) (event : Event) (s : Service) (log : Log) (snap : Snapshot)
      (t : Status) : Type 0 where
    projection : Projection
    snap' : Snapshot
    wrote : commit J env event s ≡ (record s { log = log; projection = projection }, ok tt)
    there : get projection event.request_id ≡ some snap'
    reached : snap'.status ≡ t
    frozen : snap'.request ≡ snap.request

  kept_request :
      (p p' : Projection) (e : Event) (id : Text) (s s' : Snapshot)
      → apply J p e ≡ ok p'
      → get p id ≡ some s
      → get p' id ≡ some s'
      → s'.request ≡ s.request
  unfolding rebuild_from
  kept_request p p' e id s s' h there there' =
      let (s₁, now, same) = rebuild_from_keeps_request J p p' (e ∷ []) id s (rw h refl) there in
      ap (λ (x : Snapshot). x.request) (some-eq-some (sym there' ∙ now)) ∙ same

  commit-Follows :
      (env : AppendEnv) (event e : Event) (s : Service) (log : Log) (snap : Snapshot) (t : Status)
      → append J env event s.log ≡ (log, ok e)
      → get s.projection event.request_id ≡ some snap
      → Edge event.type snap.status t
      → (Completes J event e → Decodes J e.type e)
      → Follows env event s log snap t
  unfolding commit
  commit-Follows env event e s log snap t written there edge d =
      let c = append-Completes J env event s.log log e written in
      let (p', s', good, there', ends) =
        Edge-apply J s.projection e snap t (ap (get s.projection) c.request_id ∙ there)
          (subst (λ k. Edge k snap.status t) (sym c.type) edge) (d c) in
      let now = ap (get p') (sym c.request_id) ∙ there' in
      record {
        projection = p';
        snap' = s';
        wrote = rw (written, good) refl;
        there = now;
        reached = ends;
        frozen = kept_request s.projection p' e event.request_id snap s' good there now;
      }

  -- A request that is not due, or does not wait, is not expired.
  not_expired :
      (env : Env) (id : Text) (s : Service) (snap : Snapshot)
      → get s.projection id ≡ some snap
      → (is_pending snap.status && not (ltb env.now snap.request.expires_at)) ≡ false
      → expire_if_needed J env id s ≡ (s, ok tt)
  unfolding expire_if_needed expire_found pure
  not_expired env id s snap there early = rw (there, early) refl

  in_time : (now due : ℕ) (b : Bool) → now < due → (b && not (ltb now due)) ≡ false
  in_time now due b h = ground arith

  -- Where a request waits and is not expired, the approver is another identity than the requester,
  -- the details are marshalled and the append works, `Approve` makes the request approved, keeps
  -- what was asked for, and answers with the new snapshot, whatever approval code the input names
  -- and whatever sets the approver is in.
  pub approve_succeeds :
      (laws : RoundTrips J) (env : Env) (input : ReviewInput) (s : Service) (snap : Snapshot)
      (details : Text) (log : Log) (e : Event)
      → get s.projection input.request_id ≡ some snap
      → snap.status ≡ pending
      → env.now < snap.request.expires_at
      → validate_approver input.approver snap.request.requester ≡ none
      → approval_of J input ≡ some details
      → append J env.event
          (new_event input.request_id input.approver request_approved details)
          s.log
        ≡ (log, ok e)
      → (snap' : Snapshot) × (get (approve J env input s).0.projection input.request_id
          ≡ some snap')
        × (snap'.status ≡ approved)
        × (snap'.request ≡ snap.request)
        × ((approve J env input s).1 ≡ ok (from_snapshot snap' Protocol.request_approved))
  unfolding approve approve_found approve_valid commit_details reply reply_with ◌>>=◌
  approve_succeeds laws env input s snap details log e there waiting early another encoded written =
      let event = new_event input.request_id input.approver request_approved details in
      let f =
        commit-Follows env.event event e s log snap approved written there
          (subst (λ t. Edge request_approved t approved) (sym waiting) approve_edge)
          (λ c.
            subst (λ k. Decodes J k e) (sym c.type)
              (decodes_to (J.unmarshal_approval e.details)
                (ap J.unmarshal_approval c.details ∙ laws.approval _ details encoded))) in
      let is_waiting : is_pending snap.status ≡ true = ap is_pending waiting in
      rw
        (
          not_expired env input.request_id s snap there
              (in_time env.now snap.request.expires_at (is_pending snap.status) early),
          there,
          is_waiting,
          another,
          encoded,
          f.wrote,
        )
        (f.snap', f.there, f.reached, f.frozen, rw f.there refl)

  abbrev final_status : Option Text → Status
  final_status none = executed
  final_status (some text) = failed

  final-Edge : (o : Option Text) → Edge (final_type o) executing (final_status o)
  final-Edge none = succeed
  final-Edge (some text) = fail_edge

  final-Decodes :
      (laws : RoundTrips J) (o : Option Text) (result : ExecutionResult) (d : Text) (e : Event)
      → J.marshal_finished result ≡ some d
      → e.details ≡ d
      → Decodes J (final_type o) e
  final-Decodes laws none result d e encoded same =
      decodes_to (J.unmarshal_finished e.details)
        (ap J.unmarshal_finished same ∙ laws.finished result d encoded)
  final-Decodes laws (some text) result d e encoded same = inr (
      decodes_to (J.unmarshal_finished e.details)
        (ap J.unmarshal_finished same ∙ laws.finished result d encoded))

  -- Where the request is approved, both events are marshalled and both appends work, and no other
  -- section runs between the two sections of `Execute`, that is, while the command runs, `Execute`
  -- keeps the request and answers with its snapshot, which is executed if the executor gave no
  -- error for the frozen request, and failed with the error as the message otherwise.
  pub execute_succeeds :
      (laws : RoundTrips J) (env : Env) (finish_env : AppendEnv) (id : Text) (s : Service)
      (snap : Snapshot) (result : ExecutionResult) (exec_error : Option Text)
      (started finished : Text) (log log' : Log) (e e' : Event)
      → get s.projection id ≡ some snap
      → snap.status ≡ approved
      → s.executor.execute snap.request ≡ (result, exec_error)
      → J.marshal_started (record { executor = s.executor.name; digest = snap.request.digest })
        ≡ some started
      → append J env.event (new_event id broker_actor execution_started started) s.log ≡ (log, ok e)
      → J.marshal_finished result ≡ some finished
      → append J finish_env (new_event id broker_actor (final_type exec_error) finished) log
        ≡ (log', ok e')
      → (snap' : Snapshot) × (get (execute J env finish_env id s).0.projection id ≡ some snap')
        × (snap'.status ≡ final_status exec_error)
        × (snap'.request ≡ snap.request)
        × ((execute J env finish_env id s).1 ≡ ok (from_snapshot snap' (final_message exec_error)))
  unfolding execute finish_begun finish_execute begin_execute begin_found begin_status
      start_execution commit_details reply reply_with pure ◌>>=◌
  execute_succeeds laws env finish_env id s snap result exec_error started finished log log' e e'
        there granted runs encoded written encoded' written' =
      let event = new_event id broker_actor execution_started started in
      let event' = new_event id broker_actor (final_type exec_error) finished in
      let f =
        commit-Follows env.event event e s log snap executing written there
          (subst (λ t. Edge execution_started t executing) (sym granted) start)
          (λ c. subst (λ k. Decodes J k e) (sym c.type) tt) in
      let s' : Service = record s { log = log; projection = f.projection } in
      let g =
        commit-Follows finish_env event' e' s' log' f.snap' (final_status exec_error) written'
          f.there
          (subst (λ t. Edge (final_type exec_error) t (final_status exec_error)) (sym f.reached)
            (final-Edge exec_error))
          (λ c.
            subst (λ k. Decodes J k e') (sym c.type)
              (final-Decodes laws exec_error result finished e' encoded' c.details)) in
      let settled : (is_pending snap.status && not (ltb env.now snap.request.expires_at)) ≡ false =
        rw granted refl in
      rw
        (
          not_expired env id s snap there settled,
          there,
          granted,
          encoded,
          f.wrote,
          runs,
          encoded',
          g.wrote,
        )
        (g.snap', g.there, g.reached, g.frozen ∙ f.frozen, rw g.there refl)
