-- ===== src/Events/Log/Chain.antt =====
-- internal/events/log.go: the chain of hashes that `Replay` checks.
use native.Mathlib.Decide.{ℕ_discrete}
use mathlib.Core.Path.{ap₂}
use mathlib.Core.Bool.{false≢true}
use mathlib.Core.Option
use request_sudo.Base.{
  ◌≡◌, ◌≢◌, refl, ap, sym, ◌∙◌, false, List, [], ◌∷◌, Option, none, some, Text, text_eq,
  text_eq_iff, is_empty, if◌then◌else◌, arith, inl, inr, ◌⊎◌, Option-cases,
}
use request_sudo.Events.{
  Event, Result, ok, err, ◌>>=◌, Result-cases, AllOk, or_fail, decode_event, chain_mismatch,
  event_hash_mismatch,
}
use request_sudo.Events.Json.{Json, HashEnvelope}
use request_sudo.Events.Log.{
  drop_cr, envelope, last_hash_from, hash_event, hash_envelope, check_event, check_line, read_line,
  replay_lines, replay, scan, LogFile,
}

-- `es`, newest first, before `older`.
reverse_onto {ℓ} : {A : Type ℓ} → List A → List A → List A
reverse_onto [] older = older
reverse_onto (e ∷ es) older = reverse_onto es (e ∷ older)

reverse_onto-reverse_onto {ℓ} :
    {A : Type ℓ} (es older : List A)
    → reverse_onto (reverse_onto es older) [] ≡ reverse_onto older es
unfolding reverse_onto
reverse_onto-reverse_onto [] older = refl
reverse_onto-reverse_onto (e ∷ es) older = reverse_onto-reverse_onto es (e ∷ older)

HashEnvelope-discrete : Discrete HashEnvelope
HashEnvelope-discrete = hlevel ℕ_discrete

module _ (J : Json) where
  -- Each event has its own hash, and names the hash of the one before it.
  abbrev pub Chained : Text → List Event → Type 0
  Chained prev [] = Unit
  Chained prev (e ∷ es) = (e.prev_hash ≡ prev) × (hash_event J e ≡ some e.hash) × Chained e.hash es

  check_event-Chained :
      (prev : Text) (x e : Event)
      → check_event J prev x ≡ ok e
      → (e.prev_hash ≡ prev) × (hash_event J e ≡ some e.hash)
  unfolding check_event
  check_event-Chained prev x e h = elim (Option-cases (hash_event J x)) [
    | inl bad ↦ ground (arith, bad)
    | inr (want, good) ↦
        let (same, linked, sealed) = parts want (rw good at h) in
        rw (← same) (linked, good ∙ ap (λ t. some t) (sym sealed))
  ]
    where
      parts :
          (want : Text)
          → (if text_eq x.prev_hash prev
              then (if text_eq x.hash want then ok x else err (event_hash_mismatch x.event_id))
              else err (chain_mismatch x.event_id))
            ≡ ok e
          → (x ≡ e) × (x.prev_hash ≡ prev) × (x.hash ≡ want)
      parts want k = ground (arith, text_eq_iff x.prev_hash prev, text_eq_iff x.hash want)

  read_line-Chained :
      (prev line : Text) (e : Event)
      → read_line J prev line ≡ ok (some e)
      → (e.prev_hash ≡ prev) × (hash_event J e ≡ some e.hash)
  unfolding read_line check_line
  read_line-Chained prev line e h = decoded (J.unmarshal_event (drop_cr line)) (found h)
    where
      found :
          read_line J prev line ≡ ok (some e)
          → (or_fail decode_event (J.unmarshal_event (drop_cr line)) >>= check_event J prev) ≡ ok e
      found k = ground arith

      decoded :
          (o : Option Event)
          → (or_fail decode_event o >>= check_event J prev) ≡ ok e
          → (e.prev_hash ≡ prev) × (hash_event J e ≡ some e.hash)
      decoded none k = cc
      decoded (some x) k = check_event-Chained prev x e k

  -- An event before a chained history.
  prepend-Chained :
      (prev : Text) (e : Event) (r : Result (List Event))
      → e.prev_hash ≡ prev
      → hash_event J e ≡ some e.hash
      → AllOk (Chained e.hash) r
      → AllOk (Chained prev) (r >>= λ rest. ok (e ∷ rest))
  prepend-Chained prev e (ok es) linked sealed h = (linked, sealed, h)
  prepend-Chained prev e (err x) linked sealed h = tt

  replay_lines-AllOk :
      (prev : Text) (lines : List Text) → AllOk (Chained prev) (replay_lines J prev lines)
  unfolding replay_lines
  replay_lines-AllOk prev [] = tt
  replay_lines-AllOk prev (l ∷ ls) = elim (Result-cases (read_line J prev l)) [
    | inl (x, bad) ↦ rw bad tt
    | inr (none, blank) ↦ rw blank (replay_lines-AllOk prev ls)
    | inr (some e, good) ↦
        let (linked, sealed) = read_line-Chained prev l e good in
        rw good (
          prepend-Chained prev e (replay_lines J e.hash ls) linked sealed
            (replay_lines-AllOk e.hash ls))
  ]

  -- Whatever the file holds, a history that is replayed from it is chained: the first event names
  -- the empty text, each later one the hash of the event before it, and each carries the hash of
  -- its own envelope, which is all of the event but the hash.
  pub replay-Chained : (f : LogFile) (es : List Event) → replay J f ≡ ok es → Chained [] es
  unfolding replay
  replay-Chained f es h = rw h at (replay_lines-AllOk [] (scan f))

  -- Two different envelopes with the same hash.
  abbrev pub Collision : Type 0
  Collision =
      (a : HashEnvelope) × (b : HashEnvelope) × (a ≢ b)
      × (hash : Text) × (hash_envelope J a ≡ some hash)
      × (hash_envelope J b ≡ some hash)

  -- The history newest first, where each event names the hash of the next in the list.
  abbrev head_hash : List Event → Text
  head_hash [] = []
  head_hash (e ∷ es) = e.hash

  abbrev BackChained : List Event → Type 0
  BackChained [] = Unit
  BackChained (e ∷ es) =
      (e.prev_hash ≡ head_hash es) × (hash_event J e ≡ some e.hash) × BackChained es

  BackChained-snoc :
      (es older : List Event)
      → BackChained older
      → Chained (head_hash older) es
      → BackChained (reverse_onto es older)
        × (head_hash (reverse_onto es older) ≡ last_hash_from (head_hash older) es)
  unfolding last_hash_from reverse_onto
  BackChained-snoc [] older b c = (b, refl)
  BackChained-snoc (e ∷ es) older b (linked, sealed, c) =
      BackChained-snoc es (e ∷ older) (linked, sealed, b) c

  module _ (digest_full : (payload : Text) → is_empty (J.sha256_hex payload) ≡ false) where
    hash_envelope-full :
        (e : HashEnvelope) (hash : Text) → hash_envelope J e ≡ some hash → is_empty hash ≡ false
    unfolding hash_envelope
    hash_envelope-full e hash h = go (J.marshal_envelope e) h
      where
        go :
            (o : Option Text)
            → Option.map (λ (payload : Text). J.sha256_hex payload) o ≡ some hash
            → is_empty hash ≡ false
        go none k = cc
        go (some payload) k = ground (arith, digest_full payload)

    -- The empty text is the hash of no event.
    not_first : (e : Event) → hash_event J e ≡ some e.hash → e.hash ≢ []
    not_first e sealed empty =
        false≢true (sym (hash_envelope-full (envelope e) e.hash sealed) ∙ ap is_empty empty)

    same_event : (e f : Event) → envelope e ≡ envelope f → e.hash ≡ f.hash → e ≡ f
    same_event e f same h = λ i. record {
      event_id = (same i).event_id;
      prev_hash = (same i).prev_hash;
      hash = h i;
      request_id = (same i).request_id;
      timestamp = (same i).timestamp;
      actor = (same i).actor;
      type = (same i).type;
      details = (same i).details;
    }

    same_back :
        (es fs : List Event)
        → BackChained es
        → BackChained fs
        → head_hash es ≡ head_hash fs
        → (es ≡ fs) ⊎ Collision
    same_back [] [] b c h = inl refl
    same_back [] (f ∷ fs) b (linked, sealed, c) h = absurd (not_first f sealed (sym h))
    same_back (e ∷ es) [] (linked, sealed, b) c h = absurd (not_first e sealed h)
    same_back (e ∷ es) (f ∷ fs) (el, ek, b) (fl, fk, c) h =
        elim (HashEnvelope-discrete (envelope e) (envelope f)) [
          | no differ ↦ inr (envelope e, envelope f, differ, e.hash, ek, fk ∙ ap some (sym h))
          | yes same ↦
              onto (same_back es fs b c (sym el ∙ ap (λ (x : HashEnvelope). x.prev_hash) same ∙ fl))
                same
        ]
      where
        onto :
            (es ≡ fs) ⊎ Collision
            → envelope e ≡ envelope f
            → (◌≡◌ {A = List Event} (e ∷ es) (f ∷ fs)) ⊎ Collision
        onto (inl older) same = inl (ap₂ ◌∷◌ (same_event e f same h) older)
        onto (inr collision) same = inr collision

    -- Where the digest is never empty, two accepted histories with the same last hash are the same
    -- history, or the proof has found two envelopes that the hash does not tell apart.
    pub last_hash_fixes_history :
        (f g : LogFile) (es fs : List Event)
        → replay J f ≡ ok es
        → replay J g ≡ ok fs
        → last_hash_from [] es ≡ last_hash_from [] fs
        → (es ≡ fs) ⊎ Collision
    unfolding reverse_onto
    last_hash_fixes_history f g es fs re rf h =
        let (b, hb) = BackChained-snoc es [] tt (replay-Chained f es re) in
        let (c, hc) = BackChained-snoc fs [] tt (replay-Chained g fs rf) in
        turned (same_back (reverse_onto es []) (reverse_onto fs []) b c (hb ∙ h ∙ sym hc))
      where
        turned : (reverse_onto es [] ≡ reverse_onto fs []) ⊎ Collision → (es ≡ fs) ⊎ Collision
        turned (inl same) = inl (
            sym (reverse_onto-reverse_onto es [])
            ∙ ap (λ xs. reverse_onto xs []) same
            ∙ reverse_onto-reverse_onto fs [])
        turned (inr collision) = inr collision
