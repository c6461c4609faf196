-- ===== src/Adapter/Canon/Surfaces.antt =====
-- internal/twilioadapter/canon_tail.go with internal/events/log.go: the requests of a log that the
-- broker wrote.
use request_sudo.Base.{
  ◌≡◌, refl, sym, ap, ◌∙◌, false, List, [], ◌∷◌, ◌++◌, some, Text, codes, contains, is_empty,
  if◌then◌else◌, Bool-cases, inl, inr,
}
use request_sudo.Base.Lines.{OneLine, cut_lines, cut_lines-first}
use request_sudo.Events.{Event}
use request_sudo.Events.Json.{Json, RoundTrips}
use request_sudo.Adapter.Canon.{
  CanonTailer, new_canon_tailer, Notice, whole, is_created, surface, handle_event, handle_line,
  handle_lines, scan_bytes, scan_once,
}

-- The bytes of a log of these lines.
abbrev pub log_bytes : List Text → Text
log_bytes [] = []
log_bytes (line ∷ lines) = line ++ 10 ∷ log_bytes lines

abbrev AllOneLine : List Text → Type 0
AllOneLine [] = Unit {0}
AllOneLine (line ∷ lines) = OneLine line × AllOneLine lines

cut_lines-log_bytes :
    (lines : List Text) → AllOneLine lines → cut_lines (log_bytes lines) ≡ (lines, [])
unfolding cut_lines
cut_lines-log_bytes [] h = refl
cut_lines-log_bytes (line ∷ lines) (h, hs) =
    cut_lines-first line (log_bytes lines) h
    ∙ ap (λ (q : List Text × Text). (line ∷ q.0, q.1)) (cut_lines-log_bytes lines hs)

module _ (J : Json) where
  -- The lines are the events', as `Append` marshals them.
  pub data AreLines : List Event → List Text → Type 0 where
    no_lines : AreLines [] []
    next_line :
        (e : Event) (line : Text) (es : List Event) (lines : List Text)
        → J.marshal_event e ≡ some line
        → OneLine line
        → AreLines es lines
        → AreLines (e ∷ es) (line ∷ lines)

  -- The notices that are due: one for the first creation of each request that was not seen.
  abbrev pub due : List Text → List Event → List Notice
  due seen [] = []
  due seen (e ∷ es) =
      let again = due seen es in
      let first = surface J (J.unmarshal_created e.details) ∷ due (e.request_id ∷ seen) es in
      if is_created e.type then (if contains seen e.request_id then again else first) else again

  AreLines-AllOneLine : (es : List Event) (lines : List Text) → AreLines es lines → AllOneLine lines
  AreLines-AllOneLine es lines no_lines = tt
  AreLines-AllOneLine es lines (next_line e line es' lines' m one h) =
      (one, AreLines-AllOneLine es' lines' h)

  full_line : (s : Text) → is_empty (s ++ codes "}") ≡ false
  full_line [] = refl
  full_line (c ∷ s) = refl

  -- A line that is decoded to an event.
  handle_line-event :
      (line : Text) (e : Event) (t : CanonTailer)
      → is_empty line ≡ false
      → J.unmarshal_event line ≡ some e
      → ((handle_line J line t).0.seen ≡ (handle_event J (some e) t).0.seen)
        × ((handle_line J line t).1 ≡ (handle_event J (some e) t).1)
  unfolding handle_line
  handle_line-event [] e t full h = absurd cc
  handle_line-event (c ∷ line) e t full h =
      (ap (λ o. (handle_event J o t).0.seen) h, ap (λ o. (handle_event J o t).1) h)

  -- What an event adds before the rest of the log.
  due-event :
      (e : Event) (t : CanonTailer) (es : List Event)
      → due t.seen (e ∷ es)
        ≡ (handle_event J (some e) t).1 ++ due (handle_event J (some e) t).0.seen es
  unfolding handle_event
  due-event e t es = elim (Bool-cases (is_created e.type)) [
    | inl created ↦ elim (Bool-cases (contains t.seen e.request_id)) [
      | inl again ↦ rw (created, again) refl
      | inr first ↦ rw (created, first) refl
    ]
    | inr other ↦ rw other refl
  ]

  handle_lines-due :
      (laws : RoundTrips J) (es : List Event) (lines : List Text) (t : CanonTailer)
      → AreLines es lines
      → (handle_lines J lines t).1 ≡ due t.seen es
  unfolding handle_lines
  handle_lines-due laws es lines t no_lines = refl
  handle_lines-due laws es lines t (next_line e line es' lines' m one h) =
      let (s, ends) = laws.event_object e line m in
      let full : is_empty line ≡ false = ap is_empty ends ∙ full_line s in
      let (seen, notices) = handle_line-event line e t full (laws.event e line m) in
      rw (handle_lines-due laws es' lines' (handle_line J line t).0 h, seen, notices)
        (sym (due-event e t es'))

  -- Of a log that the broker wrote, a reader that starts anew handles exactly the creation events whose
  -- request it has not met before, in their order: it surfaces the request, or logs that the details
  -- do not decode. This holds where the encoder writes each event on one line and decoding gives back
  -- what was encoded.
  pub log_is_surfaced :
      (laws : RoundTrips J) (es : List Event) (lines : List Text)
      → AreLines es lines
      → (scan_once J (whole (log_bytes lines)) new_canon_tailer).1 ≡ due [] es
  unfolding scan_once scan_bytes
  log_is_surfaced laws es lines h =
      rw (cut_lines-log_bytes lines (AreLines-AllOneLine es lines h))
        (handle_lines-due laws es lines new_canon_tailer h)
