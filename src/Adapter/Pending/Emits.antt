-- ===== src/Adapter/Pending/Emits.antt =====
-- internal/twilioadapter/pending_set.go: the rows that the operations emit, and their order.
use request_sudo.Base.{
  ℕ, ◌≤◌, ◌≡◌, refl, sym, ap, ◌∙◌, false, List, [], ◌∷◌, Option, none, some, some-eq-some, Text,
  text_eq, text_eq_iff, lookup, lookup-insert, lookup-delete, is_empty, inl, inr, Bool-cases,
  if◌then◌else◌,
}
use request_sudo.Adapter.Pending.{
  Entry, PendingSet, Row, RowType, row, opened, released, expired, is_live, put, drop_phone,
  open_found, open_pending, resolve_found, resolve, release_found, release, expire_found,
  expire_due, is_kept,
}
use request_sudo.Adapter.Pending.AuditFile.{is_other}
use request_sudo.Adapter.Pending.Replay.{
  Call, opening, resolving, releasing, expiring, run_call, run_calls,
}
use request_sudo.Adapter.Pending.Order.{Kept, AllAt, Ordered, Ordered-append, AllAt-append}

-- Every entry has a phone and a request.
abbrev pub Named : PendingSet → Type 0
Named ps =
    (phone : Text) (entry : Entry)
    → lookup phone ps.items ≡ some entry
    → (is_empty phone ≡ false) × (is_empty entry.request_id ≡ false)

Named-drop_phone : (phone : Text) (ps : PendingSet) → Named ps → Named (drop_phone phone ps)
Named-drop_phone phone ps n q entry there = elim (Bool-cases (text_eq phone q)) [
  | inl same ↦ absurd (gone _ (sym (lookup-delete phone q ps.items ∙ rw same refl) ∙ there))
  | inr other ↦ n q entry (sym (lookup-delete phone q ps.items ∙ rw other refl) ∙ there)
]
  where
    gone : (e : Entry) → none ≡ some e → ⊥
    gone e h = cc

Named-put :
    (phone request_id : Text) (now : ℕ) (ps : PendingSet)
    → is_empty phone ≡ false
    → is_empty request_id ≡ false
    → Named ps
    → Named (put phone request_id now ps)
Named-put phone request_id now ps full named n q entry there = elim (Bool-cases (text_eq phone q)) [
  | inl same ↦ (
    ap is_empty (sym ((text_eq_iff phone q).0 same)) ∙ full,
    named_entry entry (some-eq-some (sym there ∙ inserted q ∙ rw same refl)),
  )
  | inr other ↦ n q entry (sym (inserted q ∙ rw other refl) ∙ there)
]
  where
    named_entry :
        (e : Entry)
        → e ≡ record { request_id = request_id; opened_at = now }
        → is_empty e.request_id ≡ false
    named_entry e h = ap (λ (x : Entry). is_empty x.request_id) h ∙ named

    inserted :
        (q : Text)
        → lookup q (put phone request_id now ps).items ≡ (
            if text_eq phone q
            then some (record { request_id = request_id; opened_at = now })
            else lookup q ps.items)
    inserted q =
        lookup-insert phone q (record { request_id = request_id; opened_at = now }) ps.items

-- What a call leaves.
abbrev Emits : ℕ → PendingSet → List Row → Type 0
Emits now ps rows = Named ps × AllAt now rows

Kept-row :
    (type : RowType) (request_id phone : Text) (now : ℕ)
    → is_other type ≡ false
    → is_empty phone ≡ false
    → is_empty request_id ≡ false
    → Kept (row type request_id phone now)
unfolding is_kept row
Kept-row type request_id phone now mine full named = record {
  kept = rw (full, named) refl;
  typed = mine;
  emitted = refl;
}

row_ts :
    (type : RowType) (request_id phone : Text) (now : ℕ)
    → (row type request_id phone now).wall_ts ≡ now
unfolding row
row_ts type request_id phone now = refl

one_row :
    (type : RowType) (request_id phone : Text) (now : ℕ)
    → is_other type ≡ false
    → is_empty phone ≡ false
    → is_empty request_id ≡ false
    → AllAt now (row type request_id phone now ∷ [])
one_row type request_id phone now mine full named =
    (row_ts type request_id phone now, Kept-row type request_id phone now mine full named, tt)

open_found-Emits :
    (now : ℕ) (phone request_id : Text) (ps : PendingSet) (o : Option Entry)
    → is_empty phone ≡ false
    → is_empty request_id ≡ false
    → Named ps
    → lookup phone ps.items ≡ o
    → Emits now (open_found now phone request_id ps o).0 (open_found now phone request_id ps o).2
unfolding open_found
open_found-Emits now phone request_id ps none full named n h = (
  Named-put phone request_id now ps full named n,
  one_row opened request_id phone now refl full named,
)
open_found-Emits now phone request_id ps (some existing) full named n h =
    elim (Bool-cases (is_live ps.ttl now existing)) [
      | inl live ↦ rw live (n, tt)
      | inr over ↦ rw over (
        Named-put phone request_id now (drop_phone phone ps) full named
            (Named-drop_phone phone ps n),
        (
          row_ts expired existing.request_id phone now,
          Kept-row expired existing.request_id phone now refl full (n phone existing h).1,
          one_row opened request_id phone now refl full named,
        ),
      )
    ]

-- An entry is taken out, with its row.
dropped-Emits :
    (type : RowType) (now : ℕ) (phone : Text) (ps : PendingSet) (entry : Entry)
    → is_other type ≡ false
    → Named ps
    → lookup phone ps.items ≡ some entry
    → Emits now (drop_phone phone ps) (row type entry.request_id phone now ∷ [])
dropped-Emits type now phone ps entry mine n h = (
  Named-drop_phone phone ps n,
  one_row type entry.request_id phone now mine (n phone entry h).0 (n phone entry h).1,
)

resolve_found-Emits :
    (now : ℕ) (phone : Text) (ps : PendingSet) (o : Option Entry)
    → Named ps
    → lookup phone ps.items ≡ o
    → Emits now (resolve_found now phone ps o).0 (resolve_found now phone ps o).2
unfolding resolve_found
resolve_found-Emits now phone ps none n h = (n, tt)
resolve_found-Emits now phone ps (some entry) n h = elim (Bool-cases (is_live ps.ttl now entry)) [
  | inl live ↦ rw live (n, tt)
  | inr over ↦ rw over (dropped-Emits expired now phone ps entry refl n h)
]

release_found-Emits :
    (now : ℕ) (phone : Text) (ps : PendingSet) (o : Option Entry)
    → Named ps
    → lookup phone ps.items ≡ o
    → Emits now (release_found now phone ps o).0 (release_found now phone ps o).1
unfolding release_found
release_found-Emits now phone ps none n h = (n, tt)
release_found-Emits now phone ps (some entry) n h =
    dropped-Emits released now phone ps entry refl n h

expire_found-Emits :
    (now : ℕ) (phone : Text) (ps : PendingSet) (o : Option Entry)
    → Named ps
    → lookup phone ps.items ≡ o
    → Emits now (expire_found now phone ps o).0 (expire_found now phone ps o).2
unfolding expire_found
expire_found-Emits now phone ps none n h = (n, tt)
expire_found-Emits now phone ps (some entry) n h = elim (Bool-cases (is_live ps.ttl now entry)) [
  | inl live ↦ rw live (n, tt)
  | inr over ↦ rw over (dropped-Emits expired now phone ps entry refl n h)
]

expire_due-Emits :
    (now : ℕ) (phones : List Text) (ps : PendingSet)
    → Named ps
    → Emits now (expire_due now phones ps).0 (expire_due now phones ps).2
unfolding expire_due
expire_due-Emits now [] ps n = (n, tt)
expire_due-Emits now (phone ∷ phones) ps n =
    let one = expire_found now phone ps (lookup phone ps.items) in
    let (n₁, first) = expire_found-Emits now phone ps (lookup phone ps.items) n refl in
    let (n₂, rest) = expire_due-Emits now phones one.0 n₁ in
    (n₂, AllAt-append now one.2 (expire_due now phones one.0).2 first rest)

-- The calls name a phone and a request, and the clock does not go back.
abbrev pub Timely : ℕ → List Call → Type 0
Timely t [] = Unit {0}
Timely t (opening now phone request_id ∷ calls) =
    (t ≤ now) × (is_empty phone ≡ false) × (is_empty request_id ≡ false) × Timely now calls
Timely t (resolving now phone ∷ calls) = (t ≤ now) × Timely now calls
Timely t (releasing now phone ∷ calls) = (t ≤ now) × Timely now calls
Timely t (expiring now phones ∷ calls) = (t ≤ now) × Timely now calls

pub run_calls-Ordered :
    (t : ℕ) (calls : List Call) (ps : PendingSet)
    → Timely t calls
    → Named ps
    → Ordered t (run_calls calls ps).1
unfolding run_calls run_call open_pending resolve release
run_calls-Ordered t [] ps h n = tt
run_calls-Ordered t (opening now phone request_id ∷ calls) ps (le, full, named, h) n =
    let (n', rows) =
      open_found-Emits now phone request_id ps (lookup phone ps.items) full named n refl in
    Ordered-append t now _ _ le rows (run_calls-Ordered now calls _ h n')
run_calls-Ordered t (resolving now phone ∷ calls) ps (le, h) n =
    let (n', rows) = resolve_found-Emits now phone ps (lookup phone ps.items) n refl in
    Ordered-append t now _ _ le rows (run_calls-Ordered now calls _ h n')
run_calls-Ordered t (releasing now phone ∷ calls) ps (le, h) n =
    let (n', rows) = release_found-Emits now phone ps (lookup phone ps.items) n refl in
    Ordered-append t now _ _ le rows (run_calls-Ordered now calls _ h n')
run_calls-Ordered t (expiring now phones ∷ calls) ps (le, h) n =
    let (n', rows) = expire_due-Emits now phones ps n in
    Ordered-append t now _ _ le rows (run_calls-Ordered now calls _ h n')
