-- ===== src/Tests/Canons.antt =====
-- The theorems about the reader of the event log at concrete logs.
use request_sudo.Base.{
  Bool, true, false, ◌||◌, ◌==◌, ◌≡◌, refl, List, [], ◌∷◌, ◌++◌, Option, none, some, Text, codes,
}
use request_sudo.Base.Lines.{cut_lines}
use request_sudo.Adapter.Canon.{
  new_canon_tailer, undecoded_event, missing, whole, broken, scan_once, run,
}
use request_sudo.Adapter.Canon.Pieces.{growth, grown, AllWhole, run-one_scan}
use request_sudo.Adapter.Canon.Once.{Remembers, run-Remembers}
use request_sudo.Adapter.Canon.Torn.{torn_line_is_lost}
use request_sudo.Base.Lines.{OneLine}
use request_sudo.Events.{Event, request_created, execution_started}
use request_sudo.Adapter.Canon.Surfaces.{
  log_bytes, AreLines, no_lines, next_line, due, log_is_surfaced,
}
use request_sudo.Tests.Sample.{sample, sample-RoundTrips, event}
use request_sudo.Tests.Scenario.{make_event}

abbrev line_of : Event → Text
line_of e = event.enc e ++ codes "}"

-- The line of a new request.
abbrev line : Text
line = line_of (make_event request_created (codes "?")) ++ 10 ∷ []

abbrev pieces : List (Option Text)
pieces = some (1 ∷ 10 ∷ []) ∷ none ∷ some line ∷ some [] ∷ []

pieces-AllWhole : AllWhole pieces
unfolding cut_lines
pieces-AllWhole = (refl, (refl, (refl, tt)))

run-one_scan_example :
    run sample (growth [] pieces) new_canon_tailer
    ≡ scan_once sample (whole (grown pieces)) new_canon_tailer
run-one_scan_example = run-one_scan sample pieces pieces-AllWhole

run-Remembers_example :
    Remembers [] (run sample (whole line ∷ missing ∷ broken (line ++ line) ∷ []) new_canon_tailer)
run-Remembers_example =
    run-Remembers sample (whole line ∷ missing ∷ broken (line ++ line) ∷ []) new_canon_tailer tt

torn_line_is_lost_example :
    run sample
      (whole (codes "{" ++ []) ∷ whole (codes "{" ++ 97 ∷ 98 ∷ ([] ++ 10 ∷ [])) ∷ [])
      new_canon_tailer
    ≡ (record new_canon_tailer { offset = 4 }, undecoded_event ∷ undecoded_event ∷ [])
torn_line_is_lost_example =
    torn_line_is_lost sample [] 123 97 98 [] [] new_canon_tailer refl (refl, tt) (refl, tt) refl
      refl

-- A log of two creations of one request, and an event of another type.
abbrev log_events : List Event
log_events =
    make_event request_created (codes "?")
    ∷ make_event execution_started []
    ∷ make_event request_created (codes "!")
    ∷ []

abbrev contains_newline : Text → Bool
contains_newline [] = false
contains_newline (c ∷ s) = c == 10 || contains_newline s

one_line : (s : Text) → contains_newline s ≡ false → OneLine s
one_line [] h = tt
one_line (c ∷ s) h = (left (c == 10) (contains_newline s) h, one_line s (right (c == 10) _ h))
  where
    left : (a b : Bool) → (a || b) ≡ false → a ≡ false
    left false b h = refl
    left true b h = cc

    right : (a b : Bool) → (a || b) ≡ false → b ≡ false
    right false b h = h
    right true b h = absurd cc

one_more :
    (e : Event) (es : List Event) (lines : List Text)
    → contains_newline (line_of e) ≡ false
    → AreLines sample es lines
    → AreLines sample (e ∷ es) (line_of e ∷ lines)
one_more e es lines h rest = next_line e (line_of e) es lines refl (one_line (line_of e) h) rest

log_lines : AreLines sample log_events (
    line_of (make_event request_created (codes "?"))
    ∷ line_of (make_event execution_started [])
    ∷ line_of (make_event request_created (codes "!"))
    ∷ [])
log_lines = one_more _ _ _ refl (one_more _ _ _ refl (one_more _ _ _ refl no_lines))

log_is_surfaced_example :
    (scan_once sample
      (whole (
        log_bytes (
          line_of (make_event request_created (codes "?"))
          ∷ line_of (make_event execution_started [])
          ∷ line_of (make_event request_created (codes "!"))
          ∷ [])))
      new_canon_tailer).1
    ≡ due sample [] log_events
log_is_surfaced_example = log_is_surfaced sample sample-RoundTrips log_events _ log_lines
