-- ===== src/Adapter/Canon.antt =====
-- internal/twilioadapter/canon_tail.go: the reader that follows the broker's event log.
pub mod Pieces
pub mod Once
pub mod Torn
pub mod Surfaces
use request_sudo.Base.{
  ℕ, suc, ◌+◌, Bool, true, false, List, [], ◌∷◌, ◌++◌, Option, none, some, Text, codes, itoa,
  contains, is_empty, length, drop, ◌==◌, if◌then◌else◌,
}
use request_sudo.Base.Lines.{cut_lines}
use request_sudo.Core.{Request, PeerIdentity}
use request_sudo.Events.{EventType, request_created, Event}
use request_sudo.Events.Json.{Json}
use request_sudo.Adapter.Send.{PendingRequest}

-- `CanonTailer`
pub record CanonTailer : Type 0 where
  pub offset : ℕ
  pub seen : List Text

-- `NewCanonTailer`
abbrev pub new_canon_tailer : CanonTailer
new_canon_tailer = record { offset = 0; seen = [] }

-- What a scan does besides: it calls the handler, or it logs the error of a line.
pub data Notice : Type 0 where
  surfaced : PendingRequest → Notice
  undecoded_event undecoded_details : Notice

-- What the file system answers to one scan: the file is missing, cannot be opened or has no such
-- offset, or its bytes are read, to their end or up to an error.
pub data Reading : Type 0 where
  missing unopened : Reading
  whole broken : Text → Reading

abbrev pub requester_name : PeerIdentity → Text
requester_name peer =
    if is_empty peer.username then codes "uid:" ++ itoa peer.uid else peer.username

unfoldable pub pending_of : Request → PendingRequest
pending_of req = record {
  request_id = req.id;
  requester = requester_name req.requester;
  argv = req.argv;
  reason = req.reason;
  created_at = req.created_at;
}

abbrev pub is_created : EventType → Bool
is_created request_created = true
is_created _ = false

module _ (J : Json) where
  abbrev pub surface : Option Request → Notice
  surface none = undecoded_details
  surface (some req) = surfaced (pending_of req)

  -- `handleLine`, after the event was decoded.
  unfoldable pub handle_event : Option Event → CanonTailer → CanonTailer × List Notice
  handle_event none t = (t, undecoded_event ∷ [])
  handle_event (some event) t =
      if is_created event.type
      then (if contains t.seen event.request_id then (t, []) else (
        record t { seen = event.request_id ∷ t.seen },
        surface (J.unmarshal_created event.details) ∷ [],
      ))
      else (t, [])

  -- `handleLine`, and what the loop does after it.
  unfoldable pub handle_line : Text → CanonTailer → CanonTailer × List Notice
  unfolding handle_event
  handle_line [] t = (record t { offset = t.offset + 1 }, [])
  handle_line (c ∷ line) t =
      let (t', notices) = handle_event (J.unmarshal_event (c ∷ line)) t in
      (record t' { offset = t'.offset + length (c ∷ line) + 1 }, notices)

  unfoldable pub handle_lines : List Text → CanonTailer → CanonTailer × List Notice
  unfolding handle_line
  handle_lines [] t = (t, [])
  handle_lines (line ∷ lines) t =
      let (t₁, first) = handle_line line t in
      let (t₂, rest) = handle_lines lines t₁ in (t₂, first ++ rest)

  -- The loop of `scanOnce` on the bytes after the offset. Bytes after the last newline are a line too.
  unfoldable pub scan_bytes : Text → CanonTailer → CanonTailer × List Notice
  unfolding cut_lines handle_lines
  scan_bytes s t =
      let (lines, last) = cut_lines s in
      handle_lines (if is_empty last then lines else lines ++ last ∷ []) t

  -- `scanOnce`; its error is only logged.
  unfoldable pub scan_once : Reading → CanonTailer → CanonTailer × List Notice
  unfolding scan_bytes
  scan_once missing t = (t, [])
  scan_once unopened t = (t, [])
  scan_once (whole content) t = scan_bytes (drop t.offset content) t
  scan_once (broken content) t = scan_bytes (drop t.offset content) t

  -- `Run`: a scan for each tick.
  unfoldable pub run : List Reading → CanonTailer → CanonTailer × List Notice
  unfolding scan_once
  run [] t = (t, [])
  run (reading ∷ readings) t =
      let (t₁, first) = scan_once reading t in
      let (t₂, rest) = run readings t₁ in (t₂, first ++ rest)
