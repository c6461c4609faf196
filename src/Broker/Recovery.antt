-- ===== src/Broker/Recovery.antt =====
-- internal/broker/service.go: what `recoverExecutingLocked` leaves.
use request_sudo.Base.{
  ◌≡◌, ◌≢◌, refl, ap, sym, subst, ◌∙◌, Bool, true, false, List, [], ◌∷◌, Option, none, some,
  some-eq-some, Text, text_eq, text_eq_iff, contains, contains-keys, contains-sort_texts, keys,
  sort_texts, lookup, Map, inl, inr, Bool-cases, arith, if◌then◌else◌,
}
use request_sudo.Core.{Status, executing, failed}
use request_sudo.Events.{EventType, recovery_marked_failed, Event, Result, ok}
use request_sudo.Events.Json.{Json}
use request_sudo.Events.Log.{AppendEnv}
use request_sudo.Projection.{Snapshot, Projection, get, all, collect, apply, is_executing}
use request_sudo.Projection.Transitions.{Edge, recover, Lifecycle, opened, moved, apply-Lifecycle}
use request_sudo.Broker.State.{Service, Exec, pure, fail, continue, ◌>>=◌}
use request_sudo.Broker.Requests.{new_event, broker_actor, commit_details}
use request_sudo.Broker.Execute.{recover_all, recover_executing}
use request_sudo.Broker.Effects.{Commits, no_append, no_apply, written, commit-Commits}

-- Each snapshot stands under the id of its request.
abbrev pub Keyed : Projection → Type 0
Keyed p = (id : Text) (snap : Snapshot) → get p id ≡ some snap → snap.request.id ≡ id

-- Every snapshot of the list satisfies `P`.
abbrev AllSnaps : (Snapshot → Type 0) → List Snapshot → Type 0
AllSnaps P [] = Unit {0}
AllSnaps P (s ∷ ss) = P s × AllSnaps P ss

-- `collect` finds the snapshot of each key.
collect-AllSnaps :
    (P : Snapshot → Type 0) (m : Map Snapshot) (ks : List Text) (id : Text) (x : Snapshot)
    → contains ks id ≡ true
    → lookup id m ≡ some x
    → AllSnaps P (collect m ks)
    → P x
unfolding collect contains
collect-AllSnaps P m [] id x c found h = cc
collect-AllSnaps P m (k ∷ ks) id x c found h = elim (Bool-cases (text_eq k id)) [
  | inl same ↦ first (lookup k m) (ap (λ j. lookup j m) ((text_eq_iff k id).0 same) ∙ found) h
  | inr other ↦ collect-AllSnaps P m ks id x (rw other at c) found (later (lookup k m) h)
]
  where
    first :
        (o : Option Snapshot)
        → o ≡ some x
        → AllSnaps P (elim o [ some snap ↦ snap ∷ collect m ks | none ↦ collect m ks ])
        → P x
    first none q a = cc
    first (some y) q a = subst P (some-eq-some q) a.0

    later :
        (o : Option Snapshot)
        → AllSnaps P (elim o [ some snap ↦ snap ∷ collect m ks | none ↦ collect m ks ])
        → AllSnaps P (collect m ks)
    later none a = a
    later (some y) a = a.1

-- `All` has every snapshot that `Get` finds.
all-AllSnaps :
    (P : Snapshot → Type 0) (p : Projection) (id : Text) (x : Snapshot)
    → get p id ≡ some x
    → AllSnaps P (all p)
    → P x
unfolding all get
all-AllSnaps P p id x found h =
    collect-AllSnaps P p.requests (sort_texts (keys p.requests)) id x
      (contains-sort_texts (keys p.requests) id ∙ contains-keys p.requests id x found) found h

module _ (J : Json) where
  -- After an accepted recovery event its request has failed.
  failed_now :
      (p p' : Projection) (e : Event)
      → e.type ≡ recovery_marked_failed
      → apply J p e ≡ ok p'
      → (x : Snapshot) × (get p' e.request_id ≡ some x)
        × (x.status ≡ failed)
        × ((id : Text) → e.request_id ≢ id → get p' id ≡ get p id)
  failed_now p p' e t h =
      let (x, now, life, rest) = apply-Lifecycle J p p' e h in (x, now, ends life, rest)
    where
      at_recovery :
          {k : EventType} {a b : Status} → Edge k a b → k ≡ recovery_marked_failed → b ≡ failed
      at_recovery recover k = refl
      at_recovery _ k = cc

      ends : {o : Option Snapshot} {x : Snapshot} → Lifecycle J e o x → x.status ≡ failed
      ends (opened r k d) = cc
      ends (moved a b edge same) = at_recovery edge t

  -- `snap` is not the snapshot of an executing request `id`.
  abbrev NotRunning : Text → Snapshot → Type 0
  NotRunning id snap = is_executing snap.status ≡ true → snap.request.id ≢ id

  -- Where the loop succeeds, what is executing after it was executing before, and not in the list.
  abbrev Survives : List Snapshot → Projection → Projection → Type 0
  Survives snaps p p' =
      (id : Text) (x : Snapshot)
      → get p' id ≡ some x
      → x.status ≡ executing
      → AllSnaps (NotRunning id) snaps × (get p id ≡ some x)

  -- One turn of the loop, before `rest`, which the later turns are.
  module _ (env : AppendEnv) (snap : Snapshot) (snaps : List Snapshot) (rest : Exec (Unit {0}))
      (later : (t : Service)
        → (rest t).1 ≡ ok tt
        → Survives snaps t.projection (rest t).0.projection) where
    skipped-Survives :
        (s : Service)
        → is_executing snap.status ≡ false
        → (rest s).1 ≡ ok tt
        → Survives (snap ∷ snaps) s.projection (rest s).0.projection
    skipped-Survives s idle good id x found busy =
        let (others, before) = later s good id x found busy in
        ((λ run. absurd (ground (arith, run, idle)), others), before)

    committed-Survives :
        (event : Event) (s : Service)
        → event.type ≡ recovery_marked_failed
        → event.request_id ≡ snap.request.id
        → {q : Service × Result (Unit {0})} → Commits J env event s q
        → (continue q.1 (λ _. rest) q.0).1 ≡ ok tt
        → Survives (snap ∷ snaps) s.projection (continue q.1 (λ _. rest) q.0).0.projection
    committed-Survives event s t mine (no_append log f a) good id x found busy = cc
    committed-Survives event s t mine (no_apply log e f a c b) good id x found busy = cc
    committed-Survives event s t mine (written log e p a c b) good id x found busy =
        let (others, before) =
          later (record s { log = log; projection = p }) good id x found busy in
        let (y, now, over, elsewhere) = failed_now s.projection p e (c.type ∙ t) b in
        let differ : e.request_id ≢ id =
          λ same. ended y x over busy (some-eq-some (sym now ∙ ap (get p) same ∙ before)) in
        (
          (λ run same. differ (c.request_id ∙ mine ∙ same), others),
          sym (elsewhere id differ) ∙ before,
        )
      where
        ended : (y x : Snapshot) → y.status ≡ failed → x.status ≡ executing → y ≡ x → ⊥
        ended y x over busy same = cc

    marked-Survives :
        (o : Option Text) (s : Service)
        → ((commit_details J env snap.request.id broker_actor recovery_marked_failed o >>= λ _.
              rest)
            s).1
          ≡ ok tt
        → Survives
            (snap ∷ snaps)
            s.projection
            ((commit_details J env snap.request.id broker_actor recovery_marked_failed o >>= λ _.
                rest)
              s).0.projection
    unfolding commit_details fail ◌>>=◌
    marked-Survives none s good = cc
    marked-Survives (some d) s good =
        let event = new_event snap.request.id broker_actor recovery_marked_failed d in
        committed-Survives event s refl refl (commit-Commits J env event s) good

    turn-Survives :
        (b : Bool) (o : Option Text) (s : Service)
        → is_executing snap.status ≡ b
        → (((if b
                then commit_details J env snap.request.id broker_actor recovery_marked_failed o
                else pure tt)
              >>= λ _. rest)
            s).1
          ≡ ok tt
        → Survives
            (snap ∷ snaps)
            s.projection
            (((if b
                  then commit_details J env snap.request.id broker_actor recovery_marked_failed o
                  else pure tt)
                >>= λ _. rest)
              s).0.projection
    unfolding pure ◌>>=◌
    turn-Survives true o s busy good = marked-Survives o s good
    turn-Survives false o s idle good = skipped-Survives s idle good

  recover_all-Survives :
      (envs : Text → AppendEnv) (snaps : List Snapshot) (s : Service)
      → (recover_all J envs snaps s).1 ≡ ok tt
      → Survives snaps s.projection (recover_all J envs snaps s).0.projection
  unfolding recover_all pure
  recover_all-Survives envs [] s = λ good id x found busy. (tt, found)
  recover_all-Survives envs (snap ∷ snaps) s =
      turn-Survives (envs snap.request.id) snap snaps (recover_all J envs snaps)
        (recover_all-Survives envs snaps) (is_executing snap.status) _ s refl

  -- Where each snapshot stands under the id of its request and `recoverExecutingLocked` succeeds, no
  -- request is executing after it.
  pub recovered_none_executing :
      (envs : Text → AppendEnv) (s : Service) (id : Text) (x : Snapshot)
      → Keyed s.projection
      → (recover_executing J envs s).1 ≡ ok tt
      → get (recover_executing J envs s).0.projection id ≡ some x
      → x.status ≢ executing
  unfolding recover_executing
  recovered_none_executing envs s id x keyed good found busy =
      let (idle, before) = recover_all-Survives envs (all s.projection) s good id x found busy in
      all-AllSnaps (NotRunning id) s.projection id x before idle (ap is_executing busy)
        (keyed id x before)
