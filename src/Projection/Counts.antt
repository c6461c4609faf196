-- ===== src/Projection/Counts.antt =====
-- internal/projection/projection.go: approvals and starts, counted (STATE_MACHINE.md, section 5).
use request_sudo.Base.{
  ℕ, ◌+◌, ◌≤◌, ◌≡◌, refl, ap, subst, Bool, true, false, ◌&&◌, List, [], ◌∷◌, Option, none, some,
  Text, text_eq, text_eq_iff, arith, inl, inr, lookup, Bool-cases, if◌then◌else◌,
}
use request_sudo.Core.{Status, pending, approved, executing, executed, failed}
use request_sudo.Events.{
  EventType, request_created, request_approved, execution_started, Event, ok, >>=-eq-ok,
  ok-injective,
}
use request_sudo.Events.Json.{Json}
use request_sudo.Projection.{Snapshot, Projection, new, get, apply_to, apply, rebuild_from, rebuild}
use request_sudo.Projection.Transitions.{apply_inv}

abbrev pub is_approval : EventType → Bool
is_approval request_approved = true
is_approval _ = false

abbrev pub is_start : EventType → Bool
is_start execution_started = true
is_start _ = false

-- How many events of a history are about the request and of a kind.
unfoldable pub count_events : (EventType → Bool) → Text → List Event → ℕ
count_events kind id [] = 0
count_events kind id (e ∷ es) =
    (if text_eq e.request_id id && kind e.type then 1 else 0) + count_events kind id es

-- The execution attempts that a status stands for.
abbrev attempts : Status → ℕ
attempts executing = 1
attempts executed = 1
attempts failed = 1
attempts _ = 0

-- The approvals that a status needs to have been reached.
abbrev needed : Status → ℕ
needed approved = 1
needed executing = 1
needed executed = 1
needed failed = 1
needed _ = 0

-- The approvals that can have led to a status.
abbrev possible : Status → ℕ
possible pending = 0
possible _ = 1

abbrev at_status : (Status → ℕ) → Option Snapshot → ℕ
at_status f none = 0
at_status f (some s) = f s.status

abbrev one_if : Bool → ℕ
one_if b = if b then 1 else 0

-- What one event does to the three numbers of its request.
abbrev Balanced : EventType → Option Snapshot → Snapshot → Type 0
Balanced type o s' =
    (at_status attempts o + one_if (is_start type) ≡ attempts s'.status)
    × (needed s'.status ≤ at_status needed o + one_if (is_approval type))
    × (at_status possible o + one_if (is_approval type) ≤ possible s'.status)

get-new : (id : Text) → get new id ≡ none
unfolding get lookup
get-new id = refl

module _ (J : Json) where
  apply_to-Balanced :
      (type : EventType) (e : Event) (o : Option Snapshot) (s' : Snapshot)
      → apply_to J type e o ≡ ok s'
      → Balanced type o s'
  unfolding apply_to
  apply_to-Balanced request_created e none s' h = ground arith
  apply_to-Balanced request_created e (some s) s' h = cc
  apply_to-Balanced type e none s' h = cc
  apply_to-Balanced type e (some s) s' h = ground arith

  -- One event, seen from the request `id`.
  apply-counts :
      (p p' : Projection) (e : Event) (id : Text)
      → apply J p e ≡ ok p'
      → let mine = text_eq e.request_id id in
        (at_status attempts (get p id) + one_if (mine && is_start e.type)
          ≡ at_status attempts (get p' id))
        × (at_status needed (get p' id)
            ≤ at_status needed (get p id) + one_if (mine && is_approval e.type))
        × (at_status possible (get p id) + one_if (mine && is_approval e.type)
            ≤ at_status possible (get p' id))
  apply-counts p p' e id h =
      let (s', good, at) = apply_inv J p p' e h in
      elim (Bool-cases (text_eq e.request_id id)) [
        | inl mine ↦
            let same : e.request_id ≡ id = (text_eq_iff e.request_id id).0 mine in
            let balanced = apply_to-Balanced e.type e (get p e.request_id) s' good in
            rw (at id, mine) (subst (λ k. Balanced e.type (get p k) s') same balanced)
        | inr not_mine ↦ rw (at id, not_mine) (omega arith)
      ]

  rebuild_from-counts :
      (p p' : Projection) (h : List Event) (id : Text)
      → rebuild_from J p h ≡ ok p'
      → (at_status attempts (get p id) + count_events is_start id h
          ≡ at_status attempts (get p' id))
        × (at_status needed (get p' id)
            ≤ at_status needed (get p id) + count_events is_approval id h)
        × (at_status possible (get p id) + count_events is_approval id h
            ≤ at_status possible (get p' id))
  unfolding rebuild_from count_events
  rebuild_from-counts p p' [] id h = let same : p ≡ p' = ok-injective h in rw (← same) (omega arith)
  rebuild_from-counts p p' (e ∷ es) id h =
      let (q, first, rest) = >>=-eq-ok (apply J p e) (λ q. rebuild_from J q es) h in
      omega (arith, apply-counts p q e id first, rebuild_from-counts q p' es id rest)

  at_most_one : (o : Option Snapshot) → (at_status attempts o ≤ 1) × (at_status possible o ≤ 1)
  at_most_one none = omega arith
  at_most_one (some s) = ground arith

  attempts-le-needed : (o : Option Snapshot) → at_status attempts o ≤ at_status needed o
  attempts-le-needed none = omega arith
  attempts-le-needed (some s) = ground arith

  -- In every history that `Rebuild` accepts, each request is approved at most once, its execution is
  -- started at most once, and it is started only if it was approved.
  pub one_approval_one_attempt :
      (h : List Event) (p : Projection) (id : Text)
      → rebuild J h ≡ ok p
      → (count_events is_approval id h ≤ 1)
        × (count_events is_start id h ≤ 1)
        × (count_events is_start id h ≤ count_events is_approval id h)
  unfolding rebuild
  one_approval_one_attempt h p id built = omega (
    arith,
    rebuild_from-counts new p h id built,
    ap (at_status attempts) (get-new id),
    ap (at_status needed) (get-new id),
    at_most_one (get p id),
    attempts-le-needed (get p id),
  )

  -- In a history that `Rebuild` accepts, the execution of a request that is there was started once
  -- if its status is executing, executed or failed, and not at all if it has another status.
  pub started_iff_status :
      (h : List Event) (p : Projection) (id : Text) (s : Snapshot)
      → rebuild J h ≡ ok p
      → get p id ≡ some s
      → count_events is_start id h ≡ attempts s.status
  unfolding rebuild
  started_iff_status h p id s built there =
      let now : at_status attempts (get p id) ≡ attempts s.status = ap (at_status attempts) there in
      omega (arith, rebuild_from-counts new p h id built, now, ap (at_status attempts) (get-new id))
