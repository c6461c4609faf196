-- ===== src/Events/Log.antt =====
-- internal/events/log.go: the append-only log, one JSON line for each event, chained by hashes.
pub mod Replay
pub mod Chain
pub mod Faults
use request_sudo.Base.{
  ℕ, ◌*◌, Bool, true, false, List, [], ◌∷◌, ◌++◌, Option, none, some, Text, text_eq, is_empty,
  length, take, leb, ◌==◌, if◌then◌else◌,
}
use request_sudo.Events.{
  Event, Failure, Result, ok, err, ◌>>=◌, or_fail, marshal_failed, open_failed, write_failed,
  sync_failed, decode_event, rehash_event, line_too_long, chain_mismatch, event_hash_mismatch,
}
use request_sudo.Events.Json.{Json, HashEnvelope}

-- The file: its lines that end in a newline, and the bytes after the last newline.
pub record LogFile : Type 0 where
  pub lines : List Text
  pub tail : Text

-- `Log`, with the file that its path names.
pub record Log : Type 0 where
  pub file : LogFile
  pub last_hash : Text

-- How the file system answers one `Append`: all is written, the file cannot be opened, the write
-- stops after so many bytes, or `Sync` fails after the write.
pub data AppendIo : Type 0 where
  done cannot_open cannot_sync : AppendIo
  short_write : ℕ → AppendIo

-- What one `Append` gets from outside: the random event id, the clock and the file system.
pub record AppendEnv : Type 0 where
  pub new_id : Text
  pub clock : ℕ
  pub io : AppendIo

-- The limit that `scanner.Buffer` sets.
abbrev pub max_line : ℕ
max_line = 2 * 1024 * 1024

-- `bufio.ScanLines` drops a carriage return at the end of a line.
unfoldable pub drop_cr : Text → Text
drop_cr [] = []
drop_cr (c ∷ []) = if c == 13 then [] else c ∷ []
drop_cr (c ∷ d ∷ s) = c ∷ drop_cr (d ∷ s)

-- The lines that the scanner sees: an unfinished last line is one of them.
unfoldable pub scan : LogFile → List Text
scan f = if is_empty f.tail then f.lines else f.lines ++ f.tail ∷ []

abbrev pub envelope : Event → HashEnvelope
envelope e = record {
  event_id = e.event_id;
  prev_hash = e.prev_hash;
  request_id = e.request_id;
  timestamp = e.timestamp;
  actor = e.actor;
  type = e.type;
  details = e.details;
}

-- A write of `line` and a newline after what the file holds.
unfoldable pub write_line : Text → LogFile → LogFile
write_line line f = record { lines = f.lines ++ (f.tail ++ line) ∷ []; tail = [] }

-- The hash of the last event, and the given one where there is no event.
unfoldable pub last_hash_from : Text → List Event → Text
last_hash_from h [] = h
last_hash_from h (e ∷ es) = last_hash_from e.hash es

module _ (J : Json) where
  -- `hashEvent`, from the envelope on
  unfoldable pub hash_envelope : HashEnvelope → Option Text
  hash_envelope e = elim (J.marshal_envelope e) [
    | none ↦ none
    | some payload ↦ some (J.sha256_hex payload)
  ]

  -- `hashEvent`
  abbrev pub hash_event : Event → Option Text
  hash_event e = hash_envelope (envelope e)

  -- The checks of the loop of `replayUnlocked` on an event that was decoded.
  unfoldable pub check_event : Text → Event → Result Event
  unfolding hash_envelope
  check_event prev_hash event =
      if text_eq event.prev_hash prev_hash
      then elim (hash_event event) [
        | none ↦ err rehash_event
        | some want_hash ↦
            if text_eq event.hash want_hash
            then ok event
            else err (event_hash_mismatch event.event_id)
      ]
      else err (chain_mismatch event.event_id)

  -- The body of that loop, for a line that is not empty.
  unfoldable pub check_line : Text → Text → Result Event
  unfolding check_event
  check_line prev_hash line =
      or_fail decode_event (J.unmarshal_event line) >>= check_event prev_hash

  -- One turn of that loop: `none` for an empty line, which it skips.
  unfoldable pub read_line : Text → Text → Result (Option Event)
  unfolding check_line drop_cr
  read_line prev_hash line =
      if leb max_line (length line)
      then err line_too_long
      else if is_empty (drop_cr line)
      then ok none
      else check_line prev_hash (drop_cr line) >>= λ event. ok (some event)

  -- The loop of `replayUnlocked`, from the hash of the event before.
  unfoldable pub replay_lines : Text → List Text → Result (List Event)
  replay_lines prev_hash [] = ok []
  replay_lines prev_hash (line ∷ lines) = read_line prev_hash line >>= λ read. elim read [
    | none ↦ replay_lines prev_hash lines
    | some event ↦ replay_lines event.hash lines >>= λ rest. ok (event ∷ rest)
  ]

  -- `Replay`
  unfoldable pub replay : LogFile → Result (List Event)
  unfolding replay_lines read_line scan
  replay f = replay_lines [] (scan f)

  -- `NewLog`, on a file that is there
  unfoldable pub new_log : LogFile → Result Log
  unfolding replay last_hash_from
  new_log f = do events ← replay f; ok (record { file = f; last_hash = last_hash_from [] events })

  -- The part of `Append` from `json.Marshal(event)` on, by what the file system does.
  unfoldable pub write_event : AppendIo → Event → Text → Log → Log × Result Event
  unfolding write_line
  write_event done event line log =
      (record { file = write_line line log.file; last_hash = event.hash }, ok event)
  write_event cannot_open event line log = (log, err open_failed)
  write_event cannot_sync event line log =
      (record log { file = write_line line log.file }, err sync_failed)
  write_event (short_write n) event line log = (
    record log { file = record log.file { tail = log.file.tail ++ take n line } },
    err write_failed,
  )

  -- The event as `Append` completes it, all but its hash.
  unfoldable pub complete : AppendEnv → Event → Log → Event
  complete env event log = record event {
    event_id = if is_empty event.event_id then env.new_id else event.event_id;
    timestamp = if event.timestamp == 0 then env.clock else event.timestamp;
    prev_hash = log.last_hash;
  }

  -- `Append` from `json.Marshal(event)` on, by what that returned. The file is opened before.
  unfoldable pub append_marshalled : AppendIo → Event → Option Text → Log → Log × Result Event
  unfolding write_event
  append_marshalled io event (some line) log = write_event io event line log
  append_marshalled cannot_open event none log = (log, err open_failed)
  append_marshalled _ event none log = (log, err marshal_failed)

  -- `Append` from `hashEvent(event)` on, by what that returned.
  unfoldable pub append_hashed : AppendIo → Event → Option Text → Log → Log × Result Event
  unfolding append_marshalled
  append_hashed io event none log = (log, err marshal_failed)
  append_hashed io event (some hash) log =
      let sealed = record event { hash = hash } in
      append_marshalled io sealed (J.marshal_event sealed) log

  -- `Append`
  unfoldable pub append : AppendEnv → Event → Log → Log × Result Event
  unfolding complete hash_envelope append_hashed
  append env event log =
      append_hashed env.io (complete env event log) (hash_event (complete env event log)) log
