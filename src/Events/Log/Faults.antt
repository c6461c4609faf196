-- ===== src/Events/Log/Faults.antt =====
-- internal/events/log.go: `Append` where the file system fails or the line is long.
use request_sudo.Base.{
  ℕ, ◌≡◌, ◌≢◌, ◌≤◌, ◌<◌, refl, ap, sym, ◌∙◌, subst, true, List, [], ◌∷◌, ◌++◌, some, Text,
  text_eq_iff, length, leb, arith,
}
use request_sudo.Events.{Event, ok, err, sync_failed, chain_mismatch, line_too_long}
use request_sudo.Events.Json.{Json, RoundTrips}
use request_sudo.Events.Log.{
  Log, LogFile, AppendEnv, cannot_sync, max_line, last_hash_from, hash_event, check_event,
  read_line, replay_lines, replay, complete, write_line, append,
}
use request_sudo.Events.Log.Replay.{
  IsSynced, append-IsAppended, Fits, replay-write_line, replay-event, read_line-marshalled,
  last_hash_from-snoc,
}

le→leb : (a b : ℕ) → a ≤ b → leb a b ≡ true
le→leb a b h = ground arith

-- `Append` meets a failing `Sync` when it has written the line of `lost`, the completed `event`.
pub record IsLost (J : Json) (env : AppendEnv) (event : Event) (log : Log) (lost : Event)
    : Type 0 where
  pub sync : env.io ≡ cannot_sync
  pub content : lost ≡ record (complete J env event log) { hash = lost.hash }
  pub sealed : hash_event J (complete J env event log) ≡ some lost.hash
  pub line : Text
  pub marshalled : J.marshal_event lost ≡ some line
  pub short : length line < max_line

module _ (J : Json) where
  -- Where `Append` succeeds on an event whose line is as long as the scanner's limit, a log that was
  -- in step with its file cannot be replayed any more.
  pub long_line_unreadable :
      (env : AppendEnv) (event : Event) (log log' : Log) (e : Event) (h : List Event)
      → append J env event log ≡ (log', ok e)
      → ((line : Text) → J.marshal_event e ≡ some line → max_line ≤ length line)
      → IsSynced J log h
      → replay J log'.file ≡ err line_too_long
  long_line_unreadable env event log log' e h appended long synced =
      let a = append-IsAppended J env event log log' e appended in
      let over : leb max_line (length a.line) ≡ true =
        le→leb max_line (length a.line) (long a.line a.marshalled) in
      rw (a.file, replay-write_line J log.file h a.line synced.whole synced.replayed)
        (unfold replay_lines read_line in rw over)

  tail-write_line : (line : Text) (f : LogFile) → (write_line line f).tail ≡ []
  unfolding write_line
  tail-write_line line f = refl

  sealed_event :
      (env : AppendEnv) (event : Event) (log : Log) (lost : Event)
      → IsLost J env event log lost
      → hash_event J lost ≡ some lost.hash
  sealed_event env event log lost l = ap (λ (x : Event). hash_event J x) l.content ∙ l.sealed

  check_event-unlinked :
      (e : Event) (prev : Text)
      → e.prev_hash ≢ prev
      → check_event J prev e ≡ err (chain_mismatch e.event_id)
  unfolding check_event
  check_event-unlinked e prev differ = ground (arith, text_eq_iff e.prev_hash prev)

  -- The line of the lost event is in the file, and the log still holds the hash before it.
  append-IsLost :
      (env : AppendEnv) (event : Event) (log : Log) (lost : Event) (l : IsLost J env event log lost)
      → append J env event log ≡ (record log { file = write_line l.line log.file }, err sync_failed)
  unfolding append
  append-IsLost env event log lost l =
      let marshalled : J.marshal_event (record (complete J env event log) { hash = lost.hash })
          ≡ some l.line =
        ap J.marshal_event (sym l.content) ∙ l.marshalled in
      rw (l.sealed, marshalled, l.sync)

  -- Where `Sync` fails, `Append` returns an error and keeps the old hash, but the line stands in the
  -- file. If a later `Append` succeeds, the log cannot be replayed any more: the later event does not
  -- name the hash of that line. (The hash of the lost event is not the one before it, the lines are
  -- short enough for the scanner, and the log was in step with its file.)
  pub failed_sync_unreadable :
      (laws : RoundTrips J) (env env' : AppendEnv) (event event' : Event) (log log' : Log)
      (lost e' : Event) (h : List Event)
      → IsLost J env event log lost
      → lost.hash ≢ log.last_hash
      → append J env' event' (append J env event log).0 ≡ (log', ok e')
      → Fits J e'
      → IsSynced J log h
      → ((append J env event log).1 ≡ err sync_failed)
        × (replay J log'.file ≡ err (chain_mismatch e'.event_id))
  unfolding complete
  failed_sync_unreadable laws env env' event event' log log' lost e' h l changed appended fits
        synced =
      let now = append-IsLost env event log lost l in
      let log₁ : Log = record log { file = write_line l.line log.file } in
      let a =
        append-IsAppended J env' event' log₁ log' e'
          (subst (λ r. append J env' event' r.0 ≡ (log', ok e')) now appended) in
      let before : replay J log₁.file ≡ ok (h ++ lost ∷ []) =
        replay-event J laws log.file h lost l.line synced.whole synced.replayed l.marshalled l.short
          (sealed_event env event log lost l)
          (ap (λ (x : Event). x.prev_hash) l.content ∙ synced.hash) in
      let unlinked : e'.prev_hash ≢ last_hash_from [] (h ++ lost ∷ []) = λ p. changed (
        sym (last_hash_from-snoc J [] h lost)
        ∙ sym p
        ∙ ap (λ (x : Event). x.prev_hash) a.content) in
      (
        ap (λ r. r.1) now,
        rw
            (
              a.file,
              replay-write_line J log₁.file (h ++ lost ∷ []) a.line
                  (tail-write_line l.line log.file) before,
            )
            (unfold replay_lines in
              rw
                (read_line-marshalled J laws e' a.line (last_hash_from [] (h ++ lost ∷ []))
                  a.marshalled (fits a.line a.marshalled))
                (rw (check_event-unlinked e' (last_hash_from [] (h ++ lost ∷ [])) unlinked))),
      )
