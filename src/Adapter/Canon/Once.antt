-- ===== src/Adapter/Canon/Once.antt =====
-- internal/twilioadapter/canon_tail.go: the requests that were seen.
use request_sudo.Base.{
  ℕ, suc, ◌+◌, ◌≤◌, ◌≡◌, refl, Bool, true, false, List, [], ◌∷◌, ◌++◌, Option, none, some, Text,
  contains, length, drop, is_empty, arith, if◌then◌else◌,
}
use request_sudo.Core.{Request}
use request_sudo.Events.{Event}
use request_sudo.Events.Json.{Json}
use request_sudo.Base.Lines.{cut_lines}
use request_sudo.Adapter.Canon.{
  CanonTailer, Notice, surfaced, undecoded_event, undecoded_details, Reading, missing, unopened,
  whole, broken, is_created, surface, handle_event, handle_line, handle_lines, scan_bytes,
  scan_once, run,
}

-- No text stands in the list twice.
abbrev pub NoRepeat : List Text → Type 0
NoRepeat [] = Unit {0}
NoRepeat (id ∷ ids) = (contains ids id ≡ false) × NoRepeat ids

-- How often the handler is called.
abbrev pub calls : List Notice → ℕ
calls [] = 0
calls (surfaced p ∷ ns) = suc (calls ns)
calls (undecoded_event ∷ ns) = calls ns
calls (undecoded_details ∷ ns) = calls ns

calls-append : (ns ms : List Notice) → calls (ns ++ ms) ≡ calls ns + calls ms
calls-append [] ms = omega arith
calls-append (surfaced p ∷ ns) ms = omega (arith, calls-append ns ms)
calls-append (undecoded_event ∷ ns) ms = calls-append ns ms
calls-append (undecoded_details ∷ ns) ms = calls-append ns ms

-- Each call of the handler has its own request id among those that are remembered.
abbrev pub Remembers : List Text → CanonTailer × List Notice → Type 0
Remembers seen (t, notices) = NoRepeat t.seen × (calls notices + length seen ≤ length t.seen)

le_refl : (n : ℕ) → 0 + n ≤ n
le_refl n = omega arith

module _ (J : Json) where
  surface-calls : (o : Option Request) (n : ℕ) → calls (surface J o ∷ []) + n ≤ suc n
  surface-calls none n = omega arith
  surface-calls (some req) n = omega arith

  handle_event-Remembers :
      (o : Option Event) (t : CanonTailer) → NoRepeat t.seen → Remembers t.seen (handle_event J o t)
  unfolding handle_event
  handle_event-Remembers none t d = (d, le_refl (length t.seen))
  handle_event-Remembers (some event) t d =
      by_type (is_created event.type) (contains t.seen event.request_id) refl
    where
      by_type :
          (a b : Bool)
          → contains t.seen event.request_id ≡ b
          → Remembers t.seen (
              if a
              then (if b then (t, []) else (
                record t { seen = event.request_id ∷ t.seen },
                surface J (J.unmarshal_created event.details) ∷ [],
              ))
              else (t, []))
      by_type true true h = (d, le_refl (length t.seen))
      by_type true false h =
          ((h, d), surface-calls (J.unmarshal_created event.details) (length t.seen))
      by_type false b h = (d, le_refl (length t.seen))

  handle_line-Remembers :
      (line : Text) (t : CanonTailer) → NoRepeat t.seen → Remembers t.seen (handle_line J line t)
  unfolding handle_line
  handle_line-Remembers [] t d = (d, le_refl (length t.seen))
  handle_line-Remembers (c ∷ line) t d = handle_event-Remembers (J.unmarshal_event (c ∷ line)) t d

  -- One scan after another.
  joined :
      (seen : List Text) (first rest : CanonTailer × List Notice)
      → Remembers seen first
      → Remembers first.0.seen rest
      → Remembers seen (rest.0, first.1 ++ rest.1)
  joined seen first rest (d, le) (d', le') =
      (d', omega (arith, calls-append first.1 rest.1, le, le'))

  handle_lines-Remembers :
      (lines : List Text) (t : CanonTailer)
      → NoRepeat t.seen
      → Remembers t.seen (handle_lines J lines t)
  unfolding handle_lines
  handle_lines-Remembers [] t d = (d, le_refl (length t.seen))
  handle_lines-Remembers (line ∷ lines) t d =
      let first = handle_line-Remembers line t d in
      joined t.seen (handle_line J line t) (handle_lines J lines (handle_line J line t).0) first
        (handle_lines-Remembers lines (handle_line J line t).0 first.0)

  scan_bytes-Remembers :
      (content : Text) (t : CanonTailer)
      → NoRepeat t.seen
      → Remembers t.seen (scan_bytes J content t)
  unfolding scan_bytes
  scan_bytes-Remembers content t d =
      let (lines, last) = cut_lines content in
      handle_lines-Remembers (if is_empty last then lines else lines ++ last ∷ []) t d

  scan_once-Remembers :
      (reading : Reading) (t : CanonTailer)
      → NoRepeat t.seen
      → Remembers t.seen (scan_once J reading t)
  unfolding scan_once
  scan_once-Remembers missing t d = (d, le_refl (length t.seen))
  scan_once-Remembers unopened t d = (d, le_refl (length t.seen))
  scan_once-Remembers (whole content) t d = scan_bytes-Remembers (drop t.offset content) t d
  scan_once-Remembers (broken content) t d = scan_bytes-Remembers (drop t.offset content) t d

  -- Whatever the scans read, truncated, rewritten or repeated logs included, no request id is
  -- remembered twice, and the handler is called at most once for each id that is remembered.
  pub run-Remembers :
      (readings : List Reading) (t : CanonTailer)
      → NoRepeat t.seen
      → Remembers t.seen (run J readings t)
  unfolding run
  run-Remembers [] t d = (d, le_refl (length t.seen))
  run-Remembers (reading ∷ readings) t d =
      let first = scan_once-Remembers reading t d in
      joined t.seen (scan_once J reading t) (run J readings (scan_once J reading t).0) first
        (run-Remembers readings (scan_once J reading t).0 first.0)
