-- ===== src/Adapter/Send/Loop.antt =====
-- cmd/request-sudo-twilio-adapter/main.go: the loop of `handlePending`.
use request_sudo.Base.{
  ℕ, ◌+◌, ◌<◌, ◌≡◌, refl, sym, ap, subst, ◌∙◌, Bool, true, false, ◌||◌, List, [], ◌∷◌, ◌++◌,
  append-nil, append_assoc, some, Text, text_eq, text_eq_iff, text_eq_refl, lookup, contains,
  is_empty, if◌then◌else◌, Bool-cases, inl, inr, ◌⊎◌,
}
use request_sudo.Adapter.Audit.{sms_routing_empty}
use request_sudo.Adapter.Phones.{lookup_recipients}
use request_sudo.Adapter.Phones.Recipients.{Distinct, lookup_recipients-Distinct}
use request_sudo.Adapter.Pending.{resolve}
use request_sudo.Adapter.Pending.Views.{resolve-bound}
use request_sudo.Adapter.Send.{
  PendingRequest, Outbox, Channel, Outside, send_one, send_all, handle_pending, note,
}
use request_sudo.Adapter.Pending.Claims.{live_before}
use request_sudo.Adapter.Send.Slots.{
  Fate, fate, sent, rehearsed, slot_after, is_called, called, Serves, send_one-Serves, agrees,
}

called-same :
    (fates fates' : Text → Fate) (phones : List Text)
    → ((q : Text) → contains phones q ≡ true → fates q ≡ fates' q)
    → called fates phones ≡ called fates' phones
unfolding contains
called-same fates fates' [] same = refl
called-same fates fates' (phone ∷ phones) same =
    rw
      (
        same phone (rw (text_eq_refl phone) refl),
        called-same fates fates' phones (λ q there. same q (later (text_eq phone q) _ there)),
      )
      refl
  where
    later : (a b : Bool) → b ≡ true → (a || b) ≡ true
    later true b h = refl
    later false b h = h

module _ (ch : Channel) (out : Outside) (request_id : Text) where
  -- What the loop does for distinct recipients.
  abbrev pub Served : List Text → Outbox → Outbox → Type 0
  Served phones w w' =
      ((q : Text)
        → lookup q w'.pending.items ≡ (
            if contains phones q
            then slot_after request_id (out.at_open q) (fate ch out w.pending q)
                (lookup q w.pending.items)
            else lookup q w.pending.items))
      × (w'.sends ≡ w.sends ++ called (fate ch out w.pending) phones)

  loop_slots :
      (phone : Text) (phones : List Text) (w w₁ w₂ : Outbox)
      → contains phones phone ≡ false
      → Serves ch out request_id phone (fate ch out w.pending phone) w w₁
      → Served phones w₁ w₂
      → (q : Text)
      → lookup q w₂.pending.items ≡ (
          if text_eq phone q || contains phones q
          then slot_after request_id
              (out.at_open q)
              (fate ch out w.pending q)
              (lookup q w.pending.items)
          else lookup q w.pending.items)
  loop_slots phone phones w w₁ w₂ fresh one (slots, sends) q = elim (Bool-cases (text_eq phone q)) [
    | inl same ↦ rw same (
        subst
          (λ p.
            lookup p w₂.pending.items
            ≡ slot_after request_id (out.at_open p) (fate ch out w.pending p)
                (lookup p w.pending.items))
          ((text_eq_iff phone q).0 same)
          (slots phone ∙ rw fresh (one.slots phone ∙ rw (text_eq_refl phone) refl)))
    | inr other ↦ rw other (
        slots q
        ∙ rw
            (
              agrees ch out request_id phone w w₁ (fate ch out w.pending phone) one q other,
              one.slots q,
              other,
            )
            refl)
  ]

  loop_sends :
      (phone : Text) (phones : List Text) (w w₁ w₂ : Outbox)
      → contains phones phone ≡ false
      → Serves ch out request_id phone (fate ch out w.pending phone) w w₁
      → Served phones w₁ w₂
      → w₂.sends ≡ w.sends ++ called (fate ch out w.pending) (phone ∷ phones)
  loop_sends phone phones w w₁ w₂ fresh one (slots, sends) =
      let same = called-same (fate ch out w₁.pending) (fate ch out w.pending) phones (λ q there.
        agrees ch out request_id phone w w₁ (fate ch out w.pending phone) one q
          (not_first q there)) in
      sends
      ∙ rw (same, one.calls)
          (append_assoc w.sends _ _ ∙ joined (is_called (fate ch out w.pending phone)) _)
    where
      clash : (a b : Bool) → a ≡ true → b ≡ false → a ≡ b → ⊥
      clash a b x y z = cc

      not_first : (q : Text) → contains phones q ≡ true → text_eq phone q ≡ false
      not_first q there = elim (Bool-cases (text_eq phone q)) [
        | inl same ↦ absurd (
            clash (contains phones q) (contains phones phone) there fresh
              (ap (contains phones) (sym ((text_eq_iff phone q).0 same))))
        | inr other ↦ other
      ]

      joined :
          (b : Bool) (rest : List Text)
          → w.sends ++ ((if b then phone ∷ [] else []) ++ rest)
            ≡ w.sends ++ (if b then phone ∷ rest else rest)
      joined true rest = refl
      joined false rest = refl

  -- The time to live never changes.
  send_all-ttl :
      (phones : List Text) (w : Outbox)
      → (send_all ch out request_id phones w).pending.ttl ≡ w.pending.ttl
  unfolding send_all
  send_all-ttl [] w = refl
  send_all-ttl (phone ∷ phones) w =
      send_all-ttl phones (send_one ch out request_id phone w)
      ∙ (send_one-Serves ch out request_id phone w).same_ttl

  send_all-Served :
      (phones : List Text) (w : Outbox)
      → Distinct phones
      → Served phones w (send_all ch out request_id phones w)
  unfolding send_all contains
  send_all-Served [] w d = (λ q. refl, sym (append-nil w.sends))
  send_all-Served (phone ∷ phones) w (full, fresh, d) =
      let w₁ = send_one ch out request_id phone w in
      let w₂ = send_all ch out request_id phones w₁ in
      let one = send_one-Serves ch out request_id phone w in
      let rest = send_all-Served phones w₁ d in
      (
        loop_slots phone phones w w₁ w₂ fresh one rest,
        loop_sends phone phones w w₁ w₂ fresh one rest,
      )

-- `handlePending` claims exactly those recipients of the requester whose country is allowed and whose
-- phone has no entry within its time, and calls Twilio once for each of them, in order, unless it is a
-- dry run; where Twilio fails, the phone has no entry afterwards. All other phones keep their entries.
-- The set before decides, whatever the order of the recipients.
pub handle_pending-Served :
    (ch : Channel) (out : Outside) (p : PendingRequest) (w : Outbox)
    → Served ch out p.request_id
        (lookup_recipients ch.policy p.requester)
        w
        (handle_pending ch out p w)
unfolding handle_pending contains
handle_pending-Served ch out p w =
    by_recipients (lookup_recipients ch.policy p.requester)
      (lookup_recipients-Distinct ch.policy p.requester)
  where
    by_recipients :
        (phones : List Text)
        → Distinct phones
        → Served ch out p.request_id phones w (
            if is_empty phones
            then note (sms_routing_empty p.request_id p.requester) w
            else send_all ch out p.request_id phones w)
    by_recipients [] d = (λ q. refl, sym (append-nil w.sends))
    by_recipients (phone ∷ phones) d = send_all-Served ch out p.request_id (phone ∷ phones) w d

handle_pending-ttl :
    (ch : Channel) (out : Outside) (p : PendingRequest) (w : Outbox)
    → (handle_pending ch out p w).pending.ttl ≡ w.pending.ttl
unfolding handle_pending
handle_pending-ttl ch out p w =
    elim (Bool-cases (is_empty (lookup_recipients ch.policy p.requester))) [
      | inl none_there ↦ rw none_there refl
      | inr some_there ↦
          rw some_there
            (send_all-ttl ch out p.request_id (lookup_recipients ch.policy p.requester) w)
    ]

-- After `handlePending` has sent a message to a recipient, or would have in a dry run, a reply from
-- that phone resolves to that very request, up to the time of the claim and the time to live.
pub sent_phone_resolves :
    (ch : Channel) (out : Outside) (p : PendingRequest) (w : Outbox) (phone : Text) (now : ℕ)
    → contains (lookup_recipients ch.policy p.requester) phone ≡ true
    → (fate ch out w.pending phone ≡ sent) ⊎ (fate ch out w.pending phone ≡ rehearsed)
    → now < out.at_open phone + w.pending.ttl
    → resolve now phone (handle_pending ch out p w).pending
      ≡ ((handle_pending ch out p w).pending, some p.request_id, [])
sent_phone_resolves ch out p w phone now there outcome early =
    resolve-bound now phone p.request_id (handle_pending ch out p w).pending (record {
      entry = record { request_id = p.request_id; opened_at = out.at_open phone };
      there = (handle_pending-Served ch out p w).0 phone ∙ rw there (claimed outcome);
      live =
          live_before (handle_pending ch out p w).pending.ttl now (out.at_open phone) p.request_id
            (subst (λ t. now < out.at_open phone + t) (sym (handle_pending-ttl ch out p w)) early);
      names = refl;
    })
  where
    claimed :
        (fate ch out w.pending phone ≡ sent) ⊎ (fate ch out w.pending phone ≡ rehearsed)
        → slot_after p.request_id
            (out.at_open phone)
            (fate ch out w.pending phone)
            (lookup phone w.pending.items)
          ≡ some (record { request_id = p.request_id; opened_at = out.at_open phone })
    claimed (inl h) = rw h refl
    claimed (inr h) = rw h refl
