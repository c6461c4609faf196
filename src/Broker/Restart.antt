-- ===== src/Broker/Restart.antt =====
-- internal/broker/service.go: the log against the projection, across the parts of a section.
use request_sudo.Base.{
  ◌≡◌, refl, ap, sym, subst, ◌∙◌, Bool, true, false, not, ◌&&◌, ltb, [], Option, none, some, Text,
  arith, if◌then◌else◌,
}
use request_sudo.Core.{Status, pending, expired, Actor}
use request_sudo.Events.{EventType, request_expired, Event, Result, ok}
use request_sudo.Events.Json.{Json, RoundTrips}
use request_sudo.Events.Log.{AppendEnv}
use request_sudo.Projection.{Snapshot, Projection, get, apply, is_pending}
use request_sudo.Projection.Transitions.{Edge, expire}
use request_sudo.Projection.Accepts.{Decodes, Edge-apply}
use request_sudo.Protocol.{Message}
use request_sudo.Broker.State.{Service, Exec, pure, fail, commit, continue, ◌>>=◌}
use request_sudo.Broker.Requests.{
  Env, new_event, broker_actor, commit_details, expire_found, expire_if_needed, reply,
}
use request_sudo.Broker.Effects.{Completes, Expiry, not_due, was_due, not_written, expire-Expiry}
use request_sudo.Broker.Durable.{LinesFit, IsClean, Durable, commit-Durable}
use request_sudo.Broker.Guards.{then_pure, reply_same}

module _ (J : Json) (laws : RoundTrips J) where
  -- The projection accepts a completed event that follows an edge.
  pub accepts :
      (event e : Event) (p : Projection) (snap : Snapshot) (t : Status)
      → Completes J event e
      → get p event.request_id ≡ some snap
      → Edge event.type snap.status t
      → (e.type ≡ event.type → Decodes J e.type e)
      → (p' : Projection) × (apply J p e ≡ ok p')
  accepts event e p snap t c there edge d =
      let (p', s', good, there', ends) =
        Edge-apply J p e snap t (ap (get p) c.request_id ∙ there)
          (subst (λ k. Edge k snap.status t) (sym c.type) edge) (d c.type) in
      (p', good)

  pub commit_details-Durable :
      (env : AppendEnv) (id : Text) (actor : Actor) (type : EventType) (o : Option Text)
      (s : Service)
      → IsClean env
      → ((d : Text) (e : Event)
          → o ≡ some d
          → Completes J (new_event id actor type d) e
          → (p : Projection) × (apply J s.projection e ≡ ok p))
      → LinesFit (commit_details J env id actor type o s).0.log.file.lines
      → Durable J s
      → Durable J (commit_details J env id actor type o s).0
  unfolding commit_details fail
  commit_details-Durable env id actor type none s clean ok_event fits d = d
  commit_details-Durable env id actor type (some x) s clean ok_event fits d =
      commit-Durable J laws env (new_event id actor type x) s clean (λ e c. ok_event x e refl c)
        fits d

  pub expire-Durable :
      (env : Env) (id : Text) (s : Service)
      → IsClean env.expiry
      → LinesFit (expire_if_needed J env id s).0.log.file.lines
      → Durable J s
      → Durable J (expire_if_needed J env id s).0
  unfolding expire_if_needed expire_found pure
  expire-Durable env id s clean fits d = go (get s.projection id) refl fits
    where
      go :
          (o : Option Snapshot)
          → get s.projection id ≡ o
          → LinesFit (expire_found J env id o s).0.log.file.lines
          → Durable J (expire_found J env id o s).0
      go none h f = d
      go (some snap) h f =
          by_test (is_pending snap.status && not (ltb env.now snap.request.expires_at)) refl f
        where
          by_test :
              (b : Bool)
              → (is_pending snap.status && not (ltb env.now snap.request.expires_at)) ≡ b
              → LinesFit
                  ((if b
                      then commit J env.expiry (new_event id broker_actor request_expired [])
                      else pure tt)
                    s).0.log.file.lines
              → Durable J
                  ((if b
                      then commit J env.expiry (new_event id broker_actor request_expired [])
                      else pure tt)
                    s).0
          by_test false due f' = d
          by_test true due f' =
              let waiting : snap.status ≡ pending = ground arith in
              commit-Durable J laws env.expiry (new_event id broker_actor request_expired []) s
                clean
                (λ e c.
                  accepts (new_event id broker_actor request_expired []) e s.projection snap expired
                    c h (subst (λ t. Edge request_expired t expired) (sym waiting) expire)
                    (λ t. subst (λ k. Decodes J k e) (sym t) tt))
                f' d

  -- A write, and a reply that changes nothing.
  pub commit_reply-Durable :
      (env : AppendEnv) (id : Text) (actor : Actor) (type : EventType) (o : Option Text)
      (message : Message) (s : Service)
      → IsClean env
      → ((d : Text) (e : Event)
          → o ≡ some d
          → Completes J (new_event id actor type d) e
          → (p : Projection) × (apply J s.projection e ≡ ok p))
      → LinesFit
          ((commit_details J env id actor type o >>= λ _. reply J id message) s).0.log.file.lines
      → Durable J s
      → Durable J ((commit_details J env id actor type o >>= λ _. reply J id message) s).0
  commit_reply-Durable env id actor type o message s clean ok_event fits d =
      let same =
        then_pure J (commit_details J env id actor type o) (reply J id message) s
          (reply_same J id message) in
      subst (Durable J) (sym same) (
        commit_details-Durable env id actor type o s clean ok_event
          (subst (λ (t : Service). LinesFit t.log.file.lines) same fits) d)

  module _ {A : Type 0} (env : Env) (id : Text) (body : Option Snapshot → Exec A) where
    -- A section that first expires its request, and then goes by the request's snapshot.
    pub section-Durable :
        (s : Service)
        → IsClean env.expiry
        → ((snap : Snapshot) (t : Service) → snap.status ≡ expired → (body (some snap) t).0 ≡ t)
        → ((o : Option Snapshot)
            → get s.projection id ≡ o
            → LinesFit (body o s).0.log.file.lines
            → Durable J (body o s).0)
        → LinesFit
            ((expire_if_needed J env id >>= λ _. λ t. body (get t.projection id) t)
              s).0.log.file.lines
        → Durable J s
        → Durable J ((expire_if_needed J env id >>= λ _. λ t. body (get t.projection id) t) s).0
    unfolding ◌>>=◌
    section-Durable s clean when_expired when_not fits d =
        go (expire-Expiry J env id s) (expire-Durable env id s clean) fits
      where
        go :
            {q : Service × Result (Unit {0})}
            → Expiry J env id s q
            → (LinesFit q.0.log.file.lines → Durable J s → Durable J q.0)
            → LinesFit (continue q.1 (λ _ t. body (get t.projection id) t) q.0).0.log.file.lines
            → Durable J (continue q.1 (λ _ t. body (get t.projection id) t) q.0).0
        go (not_due early) after f = when_not (get s.projection id) refl f
        go (was_due t e snap' x ex a now over) after f =
            let same = ap (λ o. (body o t).0) now ∙ when_expired snap' t over in
            subst (Durable J) (sym same)
              (after (subst (λ (u : Service). LinesFit u.log.file.lines) same f) d)
        go (not_written log x) after f = after f d
