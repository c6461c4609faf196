-- ===== src/Adapter/Pending/Views.antt =====
-- internal/twilioadapter/pending_set.go: what `Resolve` and `Release` find, case by case.
use request_sudo.Base.{
  ℕ, ◌≡◌, refl, sym, ◌∙◌, Bool, true, false, List, [], Option, none, some, some-eq-some, Text,
  text_eq, text_eq_iff, lookup, lookup-delete, lookup-insert, ◌&&◌, inl, inr, Bool-cases,
  if◌then◌else◌, not, ap,
}
use request_sudo.Adapter.Pending.{
  Entry, PendingSet, Row, is_live, resolve_found, resolve, release_found, release, drop_phone,
  open_found, open_pending,
}

-- The entry of a phone whose time is not over.
pub record IsBound (now : ℕ) (phone request_id : Text) (ps : PendingSet) : Type 0 where
  pub entry : Entry
  pub there : lookup phone ps.items ≡ some entry
  pub live : is_live ps.ttl now entry ≡ true
  pub names : entry.request_id ≡ request_id

-- Every entry whose time is not over is in the other set too.
abbrev pub KeepsLive : ℕ → PendingSet → PendingSet → Type 0
KeepsLive now ps ps' =
    (phone : Text) (entry : Entry)
    → lookup phone ps.items ≡ some entry
    → is_live ps.ttl now entry ≡ true
    → lookup phone ps'.items ≡ some entry

pub data Resolved (now : ℕ) (phone : Text) (ps : PendingSet)
    : PendingSet × Option Text × List Row → Type 0 where
  missed :
      (ps' : PendingSet) (rows : List Row)
      → KeepsLive now ps ps'
      → Resolved now phone ps (ps', none, rows)
  bound :
      (request_id : Text)
      → IsBound now phone request_id ps
      → Resolved now phone ps (ps, some request_id, [])

dropped-KeepsLive :
    (now : ℕ) (phone : Text) (ps : PendingSet) (entry : Entry)
    → lookup phone ps.items ≡ some entry
    → is_live ps.ttl now entry ≡ false
    → KeepsLive now ps (drop_phone phone ps)
dropped-KeepsLive now phone ps entry there over q found there' live =
    elim (Bool-cases (text_eq phone q)) [
      | inl same ↦ absurd (
          clash (is_live ps.ttl now entry) (is_live ps.ttl now found) over live (
            ap (is_live ps.ttl now) (
              some-eq-some
                (sym there ∙ ap (λ k. lookup k ps.items) ((text_eq_iff phone q).0 same) ∙ there'))))
      | inr other ↦ lookup-delete phone q ps.items ∙ rw other there'
    ]
  where
    clash : (a b : Bool) → a ≡ false → b ≡ true → a ≡ b → ⊥
    clash a b x y z = cc

resolve_found-Resolved :
    (now : ℕ) (phone : Text) (ps : PendingSet) (o : Option Entry)
    → lookup phone ps.items ≡ o
    → Resolved now phone ps (resolve_found now phone ps o)
unfolding resolve_found
resolve_found-Resolved now phone ps none h = missed ps [] (λ q entry there live. there)
resolve_found-Resolved now phone ps (some entry) h = elim (Bool-cases (is_live ps.ttl now entry)) [
  | inl live ↦
      rw live
        (bound entry.request_id (record { entry = entry; there = h; live = live; names = refl }))
  | inr over ↦ rw over (missed _ _ (dropped-KeepsLive now phone ps entry h over))
]

pub resolve-Resolved :
    (now : ℕ) (phone : Text) (ps : PendingSet) → Resolved now phone ps (resolve now phone ps)
unfolding resolve
resolve-Resolved now phone ps = resolve_found-Resolved now phone ps (lookup phone ps.items) refl

-- `Resolve` of a phone that has an entry whose time is not over.
pub resolve-bound :
    (now : ℕ) (phone request_id : Text) (ps : PendingSet)
    → IsBound now phone request_id ps
    → resolve now phone ps ≡ (ps, some request_id, [])
unfolding resolve resolve_found
resolve-bound now phone request_id ps b = rw (b.there, b.live, b.names) refl

release_found-lookup :
    (now : ℕ) (phone q : Text) (ps : PendingSet) (o : Option Entry)
    → lookup phone ps.items ≡ o
    → lookup q (release_found now phone ps o).0.items
      ≡ (if text_eq phone q then none else lookup q ps.items)
unfolding release_found
release_found-lookup now phone q ps none h = elim (Bool-cases (text_eq phone q)) [
  | inl same ↦ rw same (ap (λ k. lookup k ps.items) (sym ((text_eq_iff phone q).0 same)) ∙ h)
  | inr other ↦ rw other refl
]
release_found-lookup now phone q ps (some entry) h = lookup-delete phone q ps.items

-- `Release` takes out the entry of the phone, and no other.
pub release-lookup :
    (now : ℕ) (phone q : Text) (ps : PendingSet)
    → lookup q (release now phone ps).0.items
      ≡ (if text_eq phone q then none else lookup q ps.items)
unfolding release
release-lookup now phone q ps = release_found-lookup now phone q ps (lookup phone ps.items) refl

-- An entry whose time is not over.
abbrev pub is_busy : ℕ → ℕ → Option Entry → Bool
is_busy ttl now none = false
is_busy ttl now (some entry) = is_live ttl now entry

open_found-slots :
    (now : ℕ) (phone request_id q : Text) (ps : PendingSet) (o : Option Entry)
    → ((open_found now phone request_id ps o).1 ≡ not (is_busy ps.ttl now o))
      × ((open_found now phone request_id ps o).0.ttl ≡ ps.ttl)
      × (lookup q (open_found now phone request_id ps o).0.items ≡ (
          if text_eq phone q && not (is_busy ps.ttl now o)
          then some (record { request_id = request_id; opened_at = now })
          else lookup q ps.items))
unfolding open_found
open_found-slots now phone request_id q ps none = (
  refl,
  refl,
  rw (lookup-insert)
      (elim (Bool-cases (text_eq phone q)) [ inl same ↦ rw same refl | inr other ↦ rw other refl ]),
)
open_found-slots now phone request_id q ps (some existing) =
    elim (Bool-cases (is_live ps.ttl now existing)) [
      | inl live ↦ rw live (
        refl,
        refl,
        elim (Bool-cases (text_eq phone q)) [ inl same ↦ rw same refl | inr other ↦ rw other refl ],
      )
      | inr over ↦
          rw (over, lookup-insert, lookup-delete)
            (
              refl,
              refl,
              elim (Bool-cases (text_eq phone q)) [
                | inl same ↦ rw same refl
                | inr other ↦ rw other refl
              ],
            )
    ]

-- `OpenPending` claims a phone that is not busy, and changes no other.
pub open_pending-slots :
    (now : ℕ) (phone request_id q : Text) (ps : PendingSet)
    → ((open_pending now phone request_id ps).1 ≡ not (is_busy ps.ttl now (lookup phone ps.items)))
      × ((open_pending now phone request_id ps).0.ttl ≡ ps.ttl)
      × (lookup q (open_pending now phone request_id ps).0.items ≡ (
          if text_eq phone q && not (is_busy ps.ttl now (lookup phone ps.items))
          then some (record { request_id = request_id; opened_at = now })
          else lookup q ps.items))
unfolding open_pending
open_pending-slots now phone request_id q ps =
    open_found-slots now phone request_id q ps (lookup phone ps.items)

release_found-ttl :
    (now : ℕ) (phone : Text) (ps : PendingSet) (o : Option Entry)
    → (release_found now phone ps o).0.ttl ≡ ps.ttl
unfolding release_found
release_found-ttl now phone ps none = refl
release_found-ttl now phone ps (some entry) = refl

pub release-ttl : (now : ℕ) (phone : Text) (ps : PendingSet) → (release now phone ps).0.ttl ≡ ps.ttl
unfolding release
release-ttl now phone ps = release_found-ttl now phone ps (lookup phone ps.items)
