-- ===== src/Adapter/Pending/Replay.antt =====
-- internal/twilioadapter/pending_set.go: the rows that the operations emit, and `ReplayFromAudit`.
use request_sudo.Base.{
  ℕ, ◌≡◌, refl, ap, ◌∙◌, List, [], ◌∷◌, ◌++◌, Option, none, some, Text, text_eq_refl, lookup, Map,
  inl, inr, Bool-cases,
}
use request_sudo.Adapter.Pending.{
  Entry, PendingSet, Row, is_live, row, open_found, open_pending, resolve_found, resolve,
  release_found, release, expire_found, expire_due, close_row, apply_row, apply_rows,
}

-- The calls of a `PendingSet`, each at its time.
pub data Call : Type 0 where
  opening : ℕ → Text → Text → Call
  resolving releasing : ℕ → Text → Call
  expiring : ℕ → List Text → Call

unfoldable pub run_call : Call → PendingSet → PendingSet × List Row
run_call (opening now phone request_id) ps =
    let (ps', claimed, rows) = open_pending now phone request_id ps in (ps', rows)
run_call (resolving now phone) ps = let (ps', found, rows) = resolve now phone ps in (ps', rows)
run_call (releasing now phone) ps = release now phone ps
run_call (expiring now phones) ps = let (ps', n, rows) = expire_due now phones ps in (ps', rows)

-- The rows stand in the audit log in the order of the calls.
unfoldable pub run_calls : List Call → PendingSet → PendingSet × List Row
unfolding run_call
run_calls [] ps = (ps, [])
run_calls (call ∷ calls) ps =
    let (ps₁, rows) = run_call call ps in
    let (ps₂, rows') = run_calls calls ps₁ in (ps₂, rows ++ rows')

-- The rows give the new entries from the old ones.
abbrev Replays : List Row → PendingSet → PendingSet → Type 0
Replays rows ps ps' = apply_rows rows ps.items ≡ ps'.items

apply_rows-append :
    (rs qs : List Row) (items : Map Entry)
    → apply_rows (rs ++ qs) items ≡ apply_rows qs (apply_rows rs items)
unfolding apply_rows
apply_rows-append [] qs items = refl
apply_rows-append (r ∷ rs) qs items = apply_rows-append rs qs (apply_row r.type r items)

Replays-then :
    (rs qs : List Row) (p q r : PendingSet)
    → Replays rs p q
    → Replays qs q r
    → Replays (rs ++ qs) p r
Replays-then rs qs p q r first second =
    apply_rows-append rs qs p.items ∙ ap (apply_rows qs) first ∙ second

open-Replays :
    (now : ℕ) (phone request_id : Text) (ps : PendingSet) (o : Option Entry)
    → lookup phone ps.items ≡ o
    → Replays (open_found now phone request_id ps o).2 ps (open_found now phone request_id ps o).0
unfolding open_found apply_rows apply_row close_row row
open-Replays now phone request_id ps none h = refl
open-Replays now phone request_id ps (some existing) h =
    elim (Bool-cases (is_live ps.ttl now existing)) [
      | inl live ↦ rw live refl
      | inr over ↦ rw over (rw (h, text_eq_refl) refl)
    ]

resolve-Replays :
    (now : ℕ) (phone : Text) (ps : PendingSet) (o : Option Entry)
    → lookup phone ps.items ≡ o
    → Replays (resolve_found now phone ps o).2 ps (resolve_found now phone ps o).0
unfolding resolve_found apply_rows apply_row close_row row
resolve-Replays now phone ps none h = refl
resolve-Replays now phone ps (some entry) h = elim (Bool-cases (is_live ps.ttl now entry)) [
  | inl live ↦ rw live refl
  | inr over ↦ rw over (rw (h, text_eq_refl) refl)
]

release-Replays :
    (now : ℕ) (phone : Text) (ps : PendingSet) (o : Option Entry)
    → lookup phone ps.items ≡ o
    → Replays (release_found now phone ps o).1 ps (release_found now phone ps o).0
unfolding release_found apply_rows apply_row close_row row
release-Replays now phone ps none h = refl
release-Replays now phone ps (some entry) h = rw (h, text_eq_refl) refl

expire-Replays :
    (now : ℕ) (phone : Text) (ps : PendingSet) (o : Option Entry)
    → lookup phone ps.items ≡ o
    → Replays (expire_found now phone ps o).2 ps (expire_found now phone ps o).0
unfolding expire_found apply_rows apply_row close_row row
expire-Replays now phone ps none h = refl
expire-Replays now phone ps (some entry) h = elim (Bool-cases (is_live ps.ttl now entry)) [
  | inl live ↦ rw live refl
  | inr over ↦ rw over (rw (h, text_eq_refl) refl)
]

expire_due-Replays :
    (now : ℕ) (phones : List Text) (ps : PendingSet)
    → Replays (expire_due now phones ps).2 ps (expire_due now phones ps).0
unfolding expire_due apply_rows
expire_due-Replays now [] ps = refl
expire_due-Replays now (phone ∷ phones) ps =
    let one = expire_found now phone ps (lookup phone ps.items) in
    Replays-then one.2 (expire_due now phones one.0).2 ps one.0 (expire_due now phones one.0).0
      (expire-Replays now phone ps (lookup phone ps.items) refl)
      (expire_due-Replays now phones one.0)

run_call-Replays :
    (call : Call) (ps : PendingSet) → Replays (run_call call ps).1 ps (run_call call ps).0
unfolding run_call open_pending resolve release
run_call-Replays (opening now phone request_id) ps =
    open-Replays now phone request_id ps (lookup phone ps.items) refl
run_call-Replays (resolving now phone) ps =
    resolve-Replays now phone ps (lookup phone ps.items) refl
run_call-Replays (releasing now phone) ps =
    release-Replays now phone ps (lookup phone ps.items) refl
run_call-Replays (expiring now phones) ps = expire_due-Replays now phones ps

-- Whatever calls are made, at whatever times, the rows that they emit, applied to the old entries in
-- the order in which they were written, give exactly the new entries.
pub rows_replay :
    (calls : List Call) (ps : PendingSet)
    → apply_rows (run_calls calls ps).1 ps.items ≡ (run_calls calls ps).0.items
unfolding run_calls apply_rows
rows_replay [] ps = refl
rows_replay (call ∷ calls) ps =
    let (ps', rows) = run_call call ps in
    Replays-then rows (run_calls calls ps').1 ps ps' (run_calls calls ps').0
      (run_call-Replays call ps) (rows_replay calls ps')
