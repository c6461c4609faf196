-- ===== src/Broker/Guards.antt =====
-- internal/broker/service.go: how the sections are put together.
use request_sudo.Base.{◌<◌, ◌≡◌, refl, ap, sym, subst, ◌∙◌, true, Option, none, some, Text, arith}
use request_sudo.Core.{Status, pending, expired, Actor}
use request_sudo.Events.{EventType, Event, Result, ok, err}
use request_sudo.Events.Json.{Json}
use request_sudo.Events.Log.{AppendEnv}
use request_sudo.Projection.{Snapshot, get, is_pending}
use request_sudo.Protocol.{Message}
use request_sudo.Broker.State.{Service, Exec, fail, continue, ◌>>=◌}
use request_sudo.Broker.Requests.{Env, new_event, commit_details, expire_if_needed, reply}
use request_sudo.Broker.Effects.{
  Moves, stays, moves, Completes, Commits, no_append, no_apply, written, commit-Commits, Expires,
  Expiry, not_due, was_due, not_written, expire-Expiry,
}

module _ (J : Json) where
  pub commit_details-Moves :
      (G : Event → Type 0) (env : AppendEnv) (request_id : Text) (actor : Actor) (type : EventType)
      (o : Option Text) (s : Service)
      → ((d : Text) (e : Event)
          → o ≡ some d
          → Completes J (new_event request_id actor type d) e
          → G e)
      → Moves J G s.projection (commit_details J env request_id actor type o s).0.projection
  unfolding commit_details fail
  commit_details-Moves G env request_id actor type none s g = stays
  commit_details-Moves G env request_id actor type (some d) s g =
      go (commit-Commits J env (new_event request_id actor type d) s)
    where
      go :
          {q : Service × Result (Unit {0})}
          → Commits J env (new_event request_id actor type d) s q
          → Moves J G s.projection q.0.projection
      go (no_append log x a) = stays
      go (no_apply log e x a c b) = stays
      go (written log e p a c b) = moves e (g d e refl c) b

  -- What follows a write and changes nothing keeps what the write did.
  pub then_pure :
      {A : Type 0} (m : Exec (Unit {0})) (k : Exec A) (s : Service)
      → ((t : Service) → (k t).0 ≡ t)
      → ((m >>= λ _. k) s).0 ≡ (m s).0
  unfolding ◌>>=◌
  then_pure m k s same = go (m s)
    where
      go : (q : Service × Result (Unit {0})) → (continue q.1 (λ _. k) q.0).0 ≡ q.0
      go (t, ok _) = same t
      go (t, err x) = refl

  pub reply_same : (id : Text) (message : Message) (s : Service) → (reply J id message s).0 ≡ s
  unfolding reply
  reply_same id message s = refl

  module _ {A : Type 0} (G : Event → Type 0) (env : Env) (id : Text)
      (body : Option Snapshot → Exec A) where
    -- A section that first expires its request, and then goes by the request's snapshot.
    pub section-Moves :
        (s : Service)
        → ((e : Event) → Expires J env id s.projection e → G e)
        → ((snap : Snapshot) (t : Service) → snap.status ≡ expired → (body (some snap) t).0 ≡ t)
        → ((o : Option Snapshot)
            → get s.projection id ≡ o
            → ((snap : Snapshot)
                → get s.projection id ≡ some snap
                → snap.status ≡ pending
                → env.now < snap.request.expires_at)
            → Moves J G s.projection (body o s).0.projection)
        → Moves J G s.projection
            ((expire_if_needed J env id >>= λ _. λ t. body (get t.projection id) t) s).0.projection
    unfolding ◌>>=◌
    section-Moves s on_expiry when_expired when_not = go (expire-Expiry J env id s)
      where
        go :
            {q : Service × Result (Unit {0})}
            → Expiry J env id s q
            → Moves J G s.projection
                (continue q.1 (λ _ t. body (get t.projection id) t) q.0).0.projection
        go (not_due early) = when_not (get s.projection id) refl early
        go (was_due t e snap' x ex a now over) =
            subst (λ (u : Service). Moves J G s.projection u.projection)
              (sym (ap (λ o. (body o t).0) now ∙ when_expired snap' t over))
              (moves e (on_expiry e ex) a)
        go (not_written log x) = stays

  pub is_pending_iff : (t : Status) → is_pending t ≡ true → t ≡ pending
  is_pending_iff t h = ground arith
