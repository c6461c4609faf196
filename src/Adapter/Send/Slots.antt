-- ===== src/Adapter/Send/Slots.antt =====
-- cmd/request-sudo-twilio-adapter/main.go: what `handlePending` does for each recipient, stated of the
-- set as it was before.
use request_sudo.Base.{
  ℕ, ◌≡◌, refl, sym, ◌∙◌, Bool, true, false, not, ◌&&◌, List, [], ◌∷◌, ◌++◌, append-nil, Option,
  none, some, Text, text_eq, lookup, if◌then◌else◌, Bool-cases, inl, inr,
}
use request_sudo.Adapter.Audit.{sms_sent_dry_run}
use request_sudo.Adapter.Phones.{mask_phone, is_allowed_country}
use request_sudo.Adapter.Pending.{Entry, PendingSet, Row, open_pending}
use request_sudo.Adapter.Pending.Views.{is_busy, open_pending-slots, release-lookup, release-ttl}
use request_sudo.Adapter.Verify.{SendResult, TwilioError}
use request_sudo.Adapter.Send.{
  Outbox, Channel, Outside, send_answered, send_opened, send_one, updated, note,
}

-- What becomes of a recipient: passed over, claimed without a message, claimed with a message, or
-- released since the message failed.
pub data Fate : Type 0 where
  passed rehearsed sent failed : Fate

unfoldable pub fate_of : (is_allowed busy dry_run : Bool) → Option TwilioError → Fate
fate_of false busy dry_run failure = passed
fate_of true true dry_run failure = passed
fate_of true false true failure = rehearsed
fate_of true false false none = sent
fate_of true false false (some failure) = failed

abbrev pub fate : Channel → Outside → PendingSet → Text → Fate
fate ch out ps phone =
    fate_of (is_allowed_country phone ch.allowed)
      (is_busy ps.ttl (out.at_open phone) (lookup phone ps.items)) ch.dry_run (out.send phone).1

-- The entry of a recipient afterwards.
abbrev pub slot_after : Text → ℕ → Fate → Option Entry → Option Entry
slot_after request_id now passed before = before
slot_after request_id now rehearsed before =
    some (record { request_id = request_id; opened_at = now })
slot_after request_id now sent before = some (record { request_id = request_id; opened_at = now })
slot_after request_id now failed before = none

abbrev pub is_called : Fate → Bool
is_called sent = true
is_called failed = true
is_called _ = false

-- The recipients for which Twilio is called.
abbrev pub called : (Text → Fate) → List Text → List Text
called fates [] = []
called fates (phone ∷ phones) =
    let rest = called fates phones in if is_called (fates phone) then phone ∷ rest else rest

module _ (ch : Channel) (out : Outside) (request_id : Text) where
  -- One recipient gets what is due to it, and no other phone is touched.
  pub record Serves (phone : Text) (f : Fate) (w w' : Outbox) : Type 0 where
    pub same_ttl : w'.pending.ttl ≡ w.pending.ttl
    pub slots :
        (q : Text)
        → lookup q w'.pending.items ≡ (
            if text_eq phone q
            then slot_after request_id (out.at_open phone) f (lookup q w.pending.items)
            else lookup q w.pending.items)
    pub calls : w'.sends ≡ w.sends ++ called (λ _. f) (phone ∷ [])

  -- What `OpenPending` leaves of a phone that it claims.
  abbrev Claimed : Text → PendingSet → PendingSet → Type 0
  Claimed phone ps ps' =
      (q : Text)
      → lookup q ps'.items ≡ (
          if text_eq phone q
          then some (record { request_id = request_id; opened_at = out.at_open phone })
          else lookup q ps.items)

  same_slots :
      (phone : Text) (ps ps' : PendingSet)
      → ((q : Text) → lookup q ps'.items ≡ lookup q ps.items)
      → (q : Text)
      → lookup q ps'.items ≡ (
          if text_eq phone q
          then slot_after request_id (out.at_open phone) passed (lookup q ps.items)
          else lookup q ps.items)
  same_slots phone ps ps' same q = same q ∙ if_same (text_eq phone q) (lookup q ps.items)
    where
      if_same : (b : Bool) (o : Option Entry) → o ≡ (if b then o else o)
      if_same true o = refl
      if_same false o = refl

  passes :
      (phone : Text) (w w' : Outbox)
      → w'.pending.ttl ≡ w.pending.ttl
      → w'.sends ≡ w.sends
      → ((q : Text) → lookup q w'.pending.items ≡ lookup q w.pending.items)
      → Serves phone passed w w'
  passes phone w w' t s same = record {
    same_ttl = t;
    slots = same_slots phone w.pending w'.pending same;
    calls = s ∙ sym (append-nil w.sends);
  }

  hit-Serves :
      (phone : Text) (ps : PendingSet) (rows : List Row) (w : Outbox) (dry : Bool)
      (answer : SendResult × Option TwilioError)
      → ps.ttl ≡ w.pending.ttl
      → Claimed phone w.pending ps
      → Serves phone (fate_of true false dry answer.1) w (
          if dry
          then note (sms_sent_dry_run request_id (mask_phone phone)) (updated ps rows w)
          else send_answered
              (out.at_release phone)
              request_id
              phone
              answer
              (record (updated ps rows w) { sends = w.sends ++ phone ∷ [] }))
  unfolding fate_of send_answered
  hit-Serves phone ps rows w true answer t l = record {
    same_ttl = t;
    slots = l;
    calls = sym (append-nil w.sends);
  }
  hit-Serves phone ps rows w false (result, none) t l = record {
    same_ttl = t;
    slots = l;
    calls = refl;
  }
  hit-Serves phone ps rows w false (result, some failure) t l = record {
    same_ttl = release-ttl (out.at_release phone) phone ps ∙ t;
    slots = λ q.
        release-lookup (out.at_release phone) phone q ps ∙ released (text_eq phone q) _ _ _ (l q);
    calls = refl;
  }
    where
      released :
          (b : Bool) (x : Option Entry) (y z : Option Entry)
          → x ≡ (if b then z else y)
          → (if b then none else x) ≡ (if b then none else y)
      released true x y z h = refl
      released false x y z h = h

  opened-Serves :
      (phone : Text) (ps : PendingSet) (claimed : Bool) (rows : List Row) (w : Outbox) (busy : Bool)
      → claimed ≡ not busy
      → ps.ttl ≡ w.pending.ttl
      → ((q : Text)
          → lookup q ps.items ≡ (
              if text_eq phone q && not busy
              then some (record { request_id = request_id; opened_at = out.at_open phone })
              else lookup q w.pending.items))
      → Serves phone
          (fate_of true busy ch.dry_run (out.send phone).1)
          w
          (send_opened ch out request_id phone (ps, claimed, rows) w)
  unfolding send_opened fate_of
  opened-Serves phone ps claimed rows w true c t l =
      rw c (passes phone w _ t refl (λ q. l q ∙ none_claimed (text_eq phone q) _ _))
    where
      none_claimed : (b : Bool) (x y : Option Entry) → (if b && false then x else y) ≡ y
      none_claimed true x y = refl
      none_claimed false x y = refl
  opened-Serves phone ps claimed rows w false c t l = rw c (
      hit-Serves phone ps rows w ch.dry_run (out.send phone) t
        (λ q. l q ∙ one_claimed (text_eq phone q) _ _))
    where
      one_claimed :
          (b : Bool) (x y : Option Entry) → (if b && true then x else y) ≡ (if b then x else y)
      one_claimed true x y = refl
      one_claimed false x y = refl

  pub send_one-Serves :
      (phone : Text) (w : Outbox)
      → Serves phone (fate ch out w.pending phone) w (send_one ch out request_id phone w)
  unfolding send_one fate_of
  send_one-Serves phone w = elim (Bool-cases (is_allowed_country phone ch.allowed)) [
    | inl allowed ↦ rw allowed (
        let slots = open_pending-slots (out.at_open phone) phone request_id in
        let r = open_pending (out.at_open phone) phone request_id w.pending in
        opened-Serves phone r.0 r.1 r.2 w
          (is_busy w.pending.ttl (out.at_open phone) (lookup phone w.pending.items))
          (slots phone w.pending).0 (slots phone w.pending).1 (λ q. (slots q w.pending).2))
    | inr other ↦ rw other (passes phone w _ refl refl (λ q. refl))
  ]

  -- The sets that agree, but for one phone, on what becomes of the others.
  abbrev FatesAgree : Text → PendingSet → PendingSet → Type 0
  FatesAgree phone ps ps' =
      (q : Text) → text_eq phone q ≡ false → fate ch out ps' q ≡ fate ch out ps q

  pub agrees :
      (phone : Text) (w w' : Outbox) (f : Fate)
      → Serves phone f w w'
      → FatesAgree phone w.pending w'.pending
  agrees phone w w' f s q other =
      let same : lookup q w'.pending.items ≡ lookup q w.pending.items = s.slots q ∙ rw other refl in
      rw (s.same_ttl, same) refl
