-- ===== src/Tests/Projections.antt =====
-- The theorems about the projection at concrete events.
use request_sudo.Base.{
  ◌≤◌, ◌≡◌, ◌≢◌, refl, true, List, [], ◌∷◌, some, Text, codes, lookup, insert, text_eq,
}
use request_sudo.Core.{terminal, executing}
use request_sudo.Events.{Event, Failure, ok, err}
use request_sudo.Projection.{Snapshot, Projection, get, apply, rebuild, rebuild_from}
use request_sudo.Projection.Transitions.{Lifecycle, start, apply-Lifecycle, apply-terminal}
use request_sudo.Projection.Accepts.{Edge-apply}
use request_sudo.Projection.Counts.{
  count_events, is_approval, is_start, one_approval_one_attempt, started_iff_status,
}
use request_sudo.Projection.Frozen.{rebuild_from_keeps_request, rebuild_from_keeps_terminal}
use request_sudo.Tests.Sample.{request, sample}
use request_sudo.Tests.Scenario.{
  rid, asked, creation, grant, launch, waiting_snap, granted_snap, lapsed_snap, running_snap,
  holding,
}

abbrev history : List Event
history = creation ∷ grant ∷ launch ∷ []

rebuilt : rebuild sample history ≡ ok (holding running_snap)
unfolding rebuild apply lookup insert text_eq
rebuilt = refl

apply-Lifecycle_example :
    (s' : Snapshot) × (get (holding granted_snap) rid ≡ some s')
    × Lifecycle sample grant (get (holding waiting_snap) rid) s'
    × ((id : Text) → rid ≢ id → get (holding granted_snap) id ≡ get (holding waiting_snap) id)
unfolding apply lookup insert text_eq
apply-Lifecycle_example =
    apply-Lifecycle sample (holding waiting_snap) (holding granted_snap) grant refl

Edge-apply_example :
    (p' : Projection) × (s' : Snapshot) × (apply sample (holding granted_snap) launch ≡ ok p')
    × (get p' rid ≡ some s')
    × (s'.status ≡ executing)
unfolding get lookup insert text_eq
Edge-apply_example =
    Edge-apply sample (holding granted_snap) launch granted_snap executing refl start tt

apply-terminal_example : (x : Failure) × (apply sample (holding lapsed_snap) grant ≡ err x)
unfolding get terminal lookup insert text_eq
apply-terminal_example = apply-terminal sample (holding lapsed_snap) grant lapsed_snap refl refl

one_approval_one_attempt_example :
    (count_events is_approval rid history ≤ 1)
    × (count_events is_start rid history ≤ 1)
    × (count_events is_start rid history ≤ count_events is_approval rid history)
one_approval_one_attempt_example =
    one_approval_one_attempt sample history (holding running_snap) rid rebuilt

rebuild_from_keeps_request_example :
    (s' : Snapshot) × (get (holding running_snap) rid ≡ some s')
    × (s'.request ≡ waiting_snap.request)
unfolding rebuild_from apply get lookup insert text_eq
rebuild_from_keeps_request_example =
    rebuild_from_keeps_request sample (holding waiting_snap) (holding running_snap)
      (grant ∷ launch ∷ []) rid waiting_snap refl refl

-- A history about another request, from its creation to the start of its command.
abbrev other_history : List Event
other_history =
    record creation {
      request_id = codes "q";
      details = request.enc (record asked { id = codes "q" });
    }
    ∷ record grant { request_id = codes "q" }
    ∷ record launch { request_id = codes "q" }
    ∷ []

abbrev other_snap : Snapshot
other_snap = record running_snap { request = record asked { id = codes "q" } }

abbrev both : Projection
both = record { requests = (rid, lapsed_snap) ∷ (codes "q", other_snap) ∷ [] }

rebuild_from_keeps_terminal_example :
    (count_events (λ _. true) rid other_history ≡ 0) × (get both rid ≡ some lapsed_snap)
unfolding rebuild_from apply get terminal lookup insert text_eq
rebuild_from_keeps_terminal_example =
    rebuild_from_keeps_terminal sample (holding lapsed_snap) both other_history rid lapsed_snap refl
      refl refl

started_iff_status_example : count_events is_start rid history ≡ 1
unfolding get lookup text_eq
started_iff_status_example =
    started_iff_status sample history (holding running_snap) rid running_snap rebuilt refl
