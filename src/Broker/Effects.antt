-- ===== src/Broker/Effects.antt =====
-- internal/broker/service.go: how a write and an expiry end, and what a locked section may apply.
use request_sudo.Base.{
  ◌<◌, ◌≤◌, ◌≡◌, refl, ap, sym, ◌∙◌, true, false, not, ◌&&◌, [], Option, none, some, Text, ltb,
  arith, inl, inr, Bool-cases, some-eq-some,
}
use request_sudo.Core.{Status, pending, expired}
use request_sudo.Events.{EventType, request_expired, Event, Failure, Result, ok, err}
use request_sudo.Events.Json.{Json}
use request_sudo.Events.Log.{Log, AppendEnv, append, complete}
use request_sudo.Events.Log.Replay.{append-IsAppended}
use request_sudo.Projection.{Snapshot, Projection, get, apply, is_pending}
use request_sudo.Projection.Transitions.{apply-Lifecycle, Lifecycle, opened, moved, Edge, expire}
use request_sudo.Broker.State.{Service, pure, commit, appended, applied}
use request_sudo.Broker.Requests.{Env, new_event, broker_actor, expire_if_needed, expire_found}

module _ (J : Json) where
  -- From `p` by no event, or by one that satisfies `G`.
  pub data Moves (G : Event → Type 0) (p : Projection) : Projection → Type 0 where
    stays : Moves G p p
    moves : {p' : Projection} (e : Event) → G e → apply J p e ≡ ok p' → Moves G p p'

  -- `e` is `event` with an id, a time, and its place in the chain.
  pub record Completes (event e : Event) : Type 0 where
    pub request_id : e.request_id ≡ event.request_id
    pub type : e.type ≡ event.type
    pub actor : e.actor ≡ event.actor
    pub details : e.details ≡ event.details

  -- How `commit` ends.
  pub data Commits (env : AppendEnv) (event : Event) (s : Service)
      : Service × Result (Unit {0}) → Type 0 where
    no_append :
        (log : Log) (x : Failure)
        → append J env event s.log ≡ (log, err x)
        → Commits env event s (record s { log = log }, err x)
    no_apply :
        (log : Log) (e : Event) (x : Failure)
        → append J env event s.log ≡ (log, ok e)
        → Completes event e
        → apply J s.projection e ≡ err x
        → Commits env event s (record s { log = log }, err x)
    written :
        (log : Log) (e : Event) (p : Projection)
        → append J env event s.log ≡ (log, ok e)
        → Completes event e
        → apply J s.projection e ≡ ok p
        → Commits env event s (record s { log = log; projection = p }, ok tt)

  pub append-Completes :
      (env : AppendEnv) (event : Event) (log log' : Log) (e : Event)
      → append J env event log ≡ (log', ok e)
      → Completes event e
  unfolding complete
  append-Completes env event log log' e h =
      let a = append-IsAppended J env event log log' e h in
      record {
        request_id = ap (λ (x : Event). x.request_id) a.content;
        type = ap (λ (x : Event). x.type) a.content;
        actor = ap (λ (x : Event). x.actor) a.content;
        details = ap (λ (x : Event). x.details) a.content;
      }

  pub commit-Commits :
      (env : AppendEnv) (event : Event) (s : Service) → Commits env event s (commit J env event s)
  unfolding commit
  commit-Commits env event s = go (append J env event s.log) refl
    where
      at_apply :
          (log : Log) (e : Event)
          → append J env event s.log ≡ (log, ok e)
          → (r : Result Projection) → apply J s.projection e ≡ r
          → Commits env event s (applied r (record s { log = log }))
      at_apply log e h (ok p) a = written log e p h (append-Completes env event s.log log e h) a
      at_apply log e h (err x) a = no_apply log e x h (append-Completes env event s.log log e h) a

      go :
          (q : Log × Result Event)
          → append J env event s.log ≡ q
          → Commits env event s (appended J q s)
      go (log, err x) h = no_append log x h
      go (log, ok e) h = at_apply log e h (apply J s.projection e) refl

  -- What the expiry of a request that is due writes.
  pub record Expires (env : Env) (request_id : Text) (p : Projection) (e : Event) : Type 0 where
    pub type : e.type ≡ request_expired
    pub mine : e.request_id ≡ request_id
    pub snap : Snapshot
    pub there : get p request_id ≡ some snap
    pub waiting : snap.status ≡ pending
    pub due : snap.request.expires_at ≤ env.now

  -- How `expire_if_needed` ends.
  pub data Expiry (env : Env) (request_id : Text) (s : Service)
      : Service × Result (Unit {0}) → Type 0 where
    not_due :
        ((snap : Snapshot)
          → get s.projection request_id ≡ some snap
          → snap.status ≡ pending
          → env.now < snap.request.expires_at)
        → Expiry env request_id s (s, ok tt)
    was_due :
        (s' : Service) (e : Event) (snap' : Snapshot)
        → s'.executor ≡ s.executor
        → Expires env request_id s.projection e
        → apply J s.projection e ≡ ok s'.projection
        → get s'.projection request_id ≡ some snap'
        → snap'.status ≡ expired
        → Expiry env request_id s (s', ok tt)
    not_written :
        (log : Log) (x : Failure) → Expiry env request_id s (record s { log = log }, err x)

  -- After an accepted expiry the request is expired.
  expired_now :
      (p p' : Projection) (e : Event)
      → e.type ≡ request_expired
      → apply J p e ≡ ok p'
      → (snap' : Snapshot) × (get p' e.request_id ≡ some snap') × (snap'.status ≡ expired)
  expired_now p p' e t h =
      let (snap', now, life, rest) = apply-Lifecycle J p p' e h in (snap', now, ends life)
    where
      at_expiry : {k : EventType} {a b : Status} → Edge k a b → k ≡ request_expired → b ≡ expired
      at_expiry expire k = refl
      at_expiry _ k = cc

      ends : {o : Option Snapshot} {x : Snapshot} → Lifecycle J e o x → x.status ≡ expired
      ends (opened r k d) = cc
      ends (moved a b edge same) = at_expiry edge t

  pending_due :
      (env : Env) (snap : Snapshot)
      → (is_pending snap.status && not (ltb env.now snap.request.expires_at)) ≡ true
      → (snap.status ≡ pending) × (snap.request.expires_at ≤ env.now)
  pending_due env snap h = ground arith

  pending_early :
      (env : Env) (snap : Snapshot)
      → snap.status ≡ pending
      → (is_pending snap.status && not (ltb env.now snap.request.expires_at)) ≡ false
      → env.now < snap.request.expires_at
  pending_early env snap w h = ground arith

  pub expire-Expiry :
      (env : Env) (request_id : Text) (s : Service)
      → Expiry env request_id s (expire_if_needed J env request_id s)
  unfolding expire_if_needed pure
  expire-Expiry env request_id s = go (get s.projection request_id) refl
    where
      expiry_event : Event
      expiry_event = new_event request_id broker_actor request_expired []

      on_time :
          (snap x : Snapshot)
          → get s.projection request_id ≡ some snap
          → get s.projection request_id ≡ some x
          → x.status ≡ pending
          → (is_pending snap.status && not (ltb env.now snap.request.expires_at)) ≡ false
          → env.now < x.request.expires_at
      on_time snap x h k w early =
          let same : snap ≡ x = some-eq-some (sym h ∙ k) in pending_early env x w (rw same at early)

      at_commit :
          (snap : Snapshot)
          → get s.projection request_id ≡ some snap
          → (is_pending snap.status && not (ltb env.now snap.request.expires_at)) ≡ true
          → {q : Service × Result (Unit {0})} → Commits env.expiry expiry_event s q
          → Expiry env request_id s q
      at_commit snap h due (no_append log x a) = not_written log x
      at_commit snap h due (no_apply log e x a c b) = not_written log x
      at_commit snap h due (written log e p a c b) =
          let (snap', now, over) = expired_now s.projection p e c.type b in
          was_due (record s { log = log; projection = p }) e snap' refl
            (record {
              type = c.type;
              mine = c.request_id;
              snap = snap;
              there = h;
              waiting = (pending_due env snap due).0;
              due = (pending_due env snap due).1;
            })
            b (ap (get p) (sym c.request_id) ∙ now) over

      go :
          (o : Option Snapshot)
          → get s.projection request_id ≡ o
          → Expiry env request_id s (expire_found J env request_id o s)
      go none h = not_due (λ snap k w. cc)
      go (some snap) h =
          elim (Bool-cases (is_pending snap.status && not (ltb env.now snap.request.expires_at))) [
            | inl due ↦ rw due (at_commit snap h due (commit-Commits env.expiry expiry_event s))
            | inr early ↦ rw early (not_due (λ x k w. on_time snap x h k w early))
          ]
