-- ===== src/Adapter/Pending/Claims.antt =====
-- internal/twilioadapter/pending_set.go: claims of a phone, and the end of their time.
use request_sudo.Base.{
  ℕ, ◌+◌, ◌<◌, ◌≡◌, ◌≢◌, refl, ap, sym, subst, ◌∙◌, Bool, true, false, List, [], ◌∷◌, Option, none,
  some, some-eq-some, Text, text_eq, text_eq_iff, text_eq_refl, lookup, delete, lookup-insert,
  lookup-delete, contains, inl, inr, ◌⊎◌, Bool-cases, arith,
}
use request_sudo.Adapter.Pending.{
  Entry, PendingSet, is_live, open_found, open_pending, resolve_found, resolve, expire_found,
  expire_due,
}

different : (a b : Text) → a ≢ b → text_eq a b ≡ false
different a b h = elim (Bool-cases (text_eq a b)) [
  | inl same ↦ absurd (h ((text_eq_iff a b).0 same))
  | inr other ↦ other
]

-- What a claim that succeeds leaves: its own entry, and the other phones as they were.
record IsClaimed (now : ℕ) (phone request_id : Text) (ps ps' : PendingSet) : Type 0 where
  mine : lookup phone ps'.items ≡ some (record { request_id = request_id; opened_at = now })
  same_ttl : ps'.ttl ≡ ps.ttl
  others : (q : Text) → phone ≢ q → lookup q ps'.items ≡ lookup q ps.items

open_found-IsClaimed :
    (now : ℕ) (phone request_id : Text) (ps : PendingSet) (o : Option Entry)
    → (open_found now phone request_id ps o).1 ≡ true
    → IsClaimed now phone request_id ps (open_found now phone request_id ps o).0
unfolding open_found
open_found-IsClaimed now phone request_id ps none = λ h. record {
  mine = rw (lookup-insert, text_eq_refl) refl;
  same_ttl = refl;
  others = λ q differ. rw (lookup-insert, different phone q differ) refl;
}
open_found-IsClaimed now phone request_id ps (some existing) =
    elim (Bool-cases (is_live ps.ttl now existing)) [
      | inl live ↦ rw live (λ h. absurd cc)
      | inr over ↦ rw over (λ h. record {
        mine = rw (lookup-insert, text_eq_refl) refl;
        same_ttl = refl;
        others = λ q differ.
            rw (lookup-insert, different phone q differ, lookup-delete, different phone q differ)
              refl;
      })
    ]

pub live_before :
    (ttl now opened : ℕ) (id : Text)
    → now < opened + ttl
    → is_live ttl now (record { request_id = id; opened_at = opened }) ≡ true
unfolding is_live
live_before ttl now opened id h = ground arith

-- After `OpenPending` has claimed a phone at `now`, then up to `now` and the time to live, every other
-- `OpenPending` of that phone is refused and changes nothing, and `Resolve` finds the request of the
-- claim; the entries of all other phones are as they were.
pub claim_is_exclusive :
    (now now' : ℕ) (phone request_id other_id : Text) (ps : PendingSet)
    → (open_pending now phone request_id ps).1 ≡ true
    → now' < now + ps.ttl
    → (open_pending now' phone other_id (open_pending now phone request_id ps).0
        ≡ ((open_pending now phone request_id ps).0, false, []))
      × (resolve now' phone (open_pending now phone request_id ps).0
          ≡ ((open_pending now phone request_id ps).0, some request_id, []))
      × ((q : Text)
          → phone ≢ q
          → lookup q (open_pending now phone request_id ps).0.items ≡ lookup q ps.items)
unfolding open_pending resolve
claim_is_exclusive now now' phone request_id other_id ps claimed early =
    let c = open_found-IsClaimed now phone request_id ps (lookup phone ps.items) claimed in
    let ps' = (open_found now phone request_id ps (lookup phone ps.items)).0 in
    let live : is_live ps'.ttl now' (record { request_id = request_id; opened_at = now }) ≡ true =
      live_before ps'.ttl now' now request_id
        (subst (λ t. now' < now + t) (sym c.same_ttl) early) in
    (busy ps' live c.mine, found ps' live c.mine, c.others)
  where
    busy :
        (p : PendingSet)
        → is_live p.ttl now' (record { request_id = request_id; opened_at = now }) ≡ true
        → lookup phone p.items ≡ some (record { request_id = request_id; opened_at = now })
        → open_found now' phone other_id p (lookup phone p.items) ≡ (p, false, [])
    busy p live mine = rw (mine) (unfold open_found in rw live refl)

    found :
        (p : PendingSet)
        → is_live p.ttl now' (record { request_id = request_id; opened_at = now }) ≡ true
        → lookup phone p.items ≡ some (record { request_id = request_id; opened_at = now })
        → resolve_found now' phone p (lookup phone p.items) ≡ (p, some request_id, [])
    found p live mine = rw (mine) (unfold resolve_found in rw live refl)

-- No entry of the phone is left that is over.
abbrev AllLive : ℕ → Text → PendingSet → Type 0
AllLive now phone ps =
    (entry : Entry) → lookup phone ps.items ≡ some entry → is_live ps.ttl now entry ≡ true

-- What one turn of `ExpireDue` does: its phone has no entry that is over, and the entries that stay
-- were there.
record IsExpired (now : ℕ) (phone : Text) (ps ps' : PendingSet) : Type 0 where
  same_ttl : ps'.ttl ≡ ps.ttl
  live : AllLive now phone ps'
  kept :
      (q : Text) (entry : Entry) → lookup q ps'.items ≡ some entry → lookup q ps.items ≡ some entry
  spared :
      (q : Text) (entry : Entry)
      → lookup q ps.items ≡ some entry
      → is_live ps.ttl now entry ≡ true
      → lookup q ps'.items ≡ some entry

expire_found-IsExpired :
    (now : ℕ) (phone : Text) (ps : PendingSet) (o : Option Entry)
    → lookup phone ps.items ≡ o
    → IsExpired now phone ps (expire_found now phone ps o).0
unfolding expire_found
expire_found-IsExpired now phone ps none h = record {
  same_ttl = refl;
  live = λ entry there. absurd cc;
  kept = λ q entry there. there;
  spared = λ q entry there l. there;
}
expire_found-IsExpired now phone ps (some e) h = elim (Bool-cases (is_live ps.ttl now e)) [
  | inl live ↦ rw live (record {
    same_ttl = refl;
    live =
        λ entry there. subst (λ x. is_live ps.ttl now x ≡ true) (some-eq-some (sym h ∙ there)) live;
    kept = λ q entry there. there;
    spared = λ q entry there l. there;
  })
  | inr over ↦ rw over (record {
    same_ttl = refl;
    live = λ entry there. absurd (gone entry there);
    kept = λ q entry there. still q entry (Bool-cases (text_eq phone q)) there;
    spared = λ q entry there l. spare q entry over there l;
  })
]
  where
    deleted : (q : Text) → text_eq phone q ≡ true → lookup q (delete phone ps.items) ≡ none
    deleted q same = lookup-delete phone q ps.items ∙ rw same refl

    is_none : (o : Option Entry) (entry : Entry) → o ≡ none → o ≡ some entry → ⊥
    is_none o entry n m = cc

    dead : (a b : Bool) → a ≡ false → b ≡ true → a ≡ b → ⊥
    dead a b x y z = cc

    gone : (entry : Entry) → lookup phone (delete phone ps.items) ≡ some entry → ⊥
    gone entry there = is_none _ entry (deleted phone (text_eq_refl phone)) there

    still :
        (q : Text) (entry : Entry)
        → (text_eq phone q ≡ true) ⊎ (text_eq phone q ≡ false)
        → lookup q (delete phone ps.items) ≡ some entry
        → lookup q ps.items ≡ some entry
    still q entry (inl same) there = absurd (is_none _ entry (deleted q same) there)
    still q entry (inr other) there = sym (lookup-delete phone q ps.items ∙ rw other refl) ∙ there

    spare :
        (q : Text) (entry : Entry)
        → is_live ps.ttl now e ≡ false
        → lookup q ps.items ≡ some entry
        → is_live ps.ttl now entry ≡ true
        → lookup q (delete phone ps.items) ≡ some entry
    spare q entry over there l = elim (Bool-cases (text_eq phone q)) [
      | inl same ↦ absurd (
          dead (is_live ps.ttl now e) (is_live ps.ttl now entry) over l (
            ap (is_live ps.ttl now) (
              some-eq-some
                (sym h ∙ ap (λ k. lookup k ps.items) ((text_eq_iff phone q).0 same) ∙ there))))
      | inr other ↦ lookup-delete phone q ps.items ∙ rw other there
    ]

-- After `ExpireDue`, in whatever order it visits the phones, no phone that it visited has an entry
-- that is over; every entry that was not over is still there, and no entry is new.
pub expire_due-live :
    (now : ℕ) (phones : List Text) (ps : PendingSet)
    → ((phone : Text)
        → contains phones phone ≡ true
        → AllLive now phone (expire_due now phones ps).0)
      × ((q : Text) (entry : Entry)
          → lookup q ps.items ≡ some entry
          → is_live ps.ttl now entry ≡ true
          → lookup q (expire_due now phones ps).0.items ≡ some entry)
      × ((q : Text) (entry : Entry)
          → lookup q (expire_due now phones ps).0.items ≡ some entry
          → lookup q ps.items ≡ some entry)
      × ((expire_due now phones ps).0.ttl ≡ ps.ttl)
unfolding expire_due contains
expire_due-live now [] ps =
    (λ phone c. absurd cc, λ q entry there l. there, λ q entry there. there, refl)
expire_due-live now (phone ∷ phones) ps =
    let one = expire_found-IsExpired now phone ps (lookup phone ps.items) refl in
    let ps₁ = (expire_found now phone ps (lookup phone ps.items)).0 in
    let (visited, spared, kept, ttl) = expire_due-live now phones ps₁ in
    (
      λ q c. elim (Bool-cases (text_eq phone q)) [
        | inl same ↦ λ entry there.
            subst (λ t. is_live t now entry ≡ true) (sym ttl)
              (one.live entry
                (ap (λ k. lookup k ps₁.items) ((text_eq_iff phone q).0 same) ∙ kept q entry there))
        | inr other ↦ visited q (rw other at c)
      ],
      λ q entry there l.
          spared q entry (one.spared q entry there l)
            (subst (λ t. is_live t now entry ≡ true) (sym one.same_ttl) l),
      λ q entry there. one.kept q entry (kept q entry there),
      ttl ∙ one.same_ttl,
    )
