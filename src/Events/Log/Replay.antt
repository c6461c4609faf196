-- ===== src/Events/Log/Replay.antt =====
-- internal/events/log.go: `Append` and then `Replay`.
use request_sudo.Base.{
  ◌<◌, ◌≡◌, refl, ap, subst, sym, ◌∙◌, true, false, List, [], ◌∷◌, ◌++◌, Option, none, some, Text,
  text_eq, text_eq_refl, text_eq_iff, codes, is_empty, length, leb, arith, inl, inr,
}
use request_sudo.Events.{Event, Result, ok, err, ◌>>=◌, Result-cases}
use request_sudo.Events.Json.{Json, RoundTrips}
use request_sudo.Events.Log.{
  Log, LogFile, AppendIo, AppendEnv, done, max_line, drop_cr, scan, last_hash_from, hash_event,
  check_event, read_line, replay_lines, replay, complete, write_event, append_marshalled,
  append_hashed, write_line, append,
}

bind-ok {ℓ} : {A : Type ℓ} (r : Result A) → (r >>= ok) ≡ r
bind-ok (ok a) = refl
bind-ok (err e) = refl

-- An object's line is no empty line, with or without a carriage return dropped.
drop_cr-object : (s : Text) → drop_cr (s ++ codes "}") ≡ s ++ codes "}"
unfolding drop_cr
drop_cr-object [] = refl
drop_cr-object (c ∷ []) = refl
drop_cr-object (c ∷ d ∷ s) = ap (λ (t : Text). c ∷ t) (drop_cr-object (d ∷ s))

is_empty-object : (s : Text) → is_empty (s ++ codes "}") ≡ false
is_empty-object [] = refl
is_empty-object (c ∷ s) = refl

module _ (J : Json) where
  -- Reading on after the lines that were read.
  abbrev pub read_on : List Text → Text → List Event → Result (List Event)
  read_on ms prev es = replay_lines J (last_hash_from prev es) ms >>= λ fs. ok (es ++ fs)

  read_on-cons :
      (ms : List Text) (prev : Text) (e : Event) (r : Result (List Event))
      → ((r >>= λ es. ok (e ∷ es)) >>= read_on ms prev)
        ≡ ((r >>= read_on ms e.hash) >>= λ fs. ok (e ∷ fs))
  unfolding last_hash_from
  read_on-cons ms prev e (err x) = refl
  read_on-cons ms prev e (ok es) = go (replay_lines J (last_hash_from e.hash es) ms)
    where
      go :
          (r : Result (List Event))
          → (r >>= λ fs. ok (e ∷ (es ++ fs))) ≡ ((r >>= λ fs. ok (es ++ fs)) >>= λ fs. ok (e ∷ fs))
      go (ok fs) = refl
      go (err x) = refl

  replay_lines-append :
      (prev : Text) (ls ms : List Text)
      → replay_lines J prev (ls ++ ms) ≡ (replay_lines J prev ls >>= read_on ms prev)
  unfolding replay_lines last_hash_from
  replay_lines-append prev [] ms = sym (bind-ok (replay_lines J prev ms))
  replay_lines-append prev (l ∷ ls) ms = elim (Result-cases (read_line J prev l)) [
    | inl (x, bad) ↦ rw bad
    | inr (none, blank) ↦ rw blank (replay_lines-append prev ls ms)
    | inr (some e, good) ↦ rw good (
        ap (λ r. r >>= λ fs. ok (e ∷ fs)) (replay_lines-append e.hash ls ms)
        ∙ sym (read_on-cons ms prev e (replay_lines J e.hash ls)))
  ]

  -- The log's file replays to `h`, ends in a newline, and the log holds the last hash of `h`.
  pub record IsSynced (log : Log) (h : List Event) : Type 0 where
    pub replayed : replay J log.file ≡ ok h
    pub whole : log.file.tail ≡ []
    pub hash : log.last_hash ≡ last_hash_from [] h

  -- What an `append` that returned `e` has done, for the event completed to `c`.
  pub record IsAppended (c : Event) (log log' : Log) (e : Event) : Type 0 where
    pub line : Text
    pub marshalled : J.marshal_event e ≡ some line
    pub file : log'.file ≡ write_line line log.file
    pub last_hash : log'.last_hash ≡ e.hash
    pub sealed : hash_event J e ≡ some e.hash
    pub content : e ≡ record c { hash = e.hash }

  write_event-IsAppended :
      (io : AppendIo) (c x : Event) (line : Text) (log log' : Log) (e : Event)
      → J.marshal_event x ≡ some line
      → hash_event J x ≡ some x.hash
      → x ≡ record c { hash = x.hash }
      → write_event J io x line log ≡ (log', ok e)
      → IsAppended c log log' e
  unfolding write_event
  write_event-IsAppended done c x line log log' e m s t h =
      let same : x ≡ e = ground arith in
      subst (IsAppended c log log') same (record {
        line = line;
        marshalled = m;
        file = ground arith;
        last_hash = ground arith;
        sealed = s;
        content = t;
      })
  write_event-IsAppended _ c x line log log' e m s t h = absurd (ground arith)

  append_hashed-IsAppended :
      (io : AppendIo) (c : Event) (o : Option Text) (log log' : Log) (e : Event)
      → hash_event J c ≡ o
      → append_hashed J io c o log ≡ (log', ok e)
      → IsAppended c log log' e
  unfolding append_hashed
  append_hashed-IsAppended io c none log log' e s h = absurd (ground arith)
  append_hashed-IsAppended io c (some hash) log log' e s h =
      go (J.marshal_event (record c { hash = hash })) refl h
    where
      go :
          (o : Option Text)
          → J.marshal_event (record c { hash = hash }) ≡ o
          → append_marshalled J io (record c { hash = hash }) o log ≡ (log', ok e)
          → IsAppended c log log' e
      go (some line) m k =
          write_event-IsAppended io c (record c { hash = hash }) line log log' e m s refl k
      go none m k = absurd (ground arith)

  pub append-IsAppended :
      (env : AppendEnv) (event : Event) (log log' : Log) (e : Event)
      → append J env event log ≡ (log', ok e)
      → IsAppended (complete J env event log) log log' e
  unfolding append
  append-IsAppended env event log log' e h =
      append_hashed-IsAppended env.io (complete J env event log)
        (hash_event J (complete J env event log)) log log' e refl h

  -- `event`'s line is short enough for the scanner.
  abbrev pub Fits : Event → Type 0
  Fits e = (line : Text) → J.marshal_event e ≡ some line → length line < max_line

  -- A line that is short enough is read back as the event that it was written for.
  pub read_line-marshalled :
      (laws : RoundTrips J) (e : Event) (line prev : Text)
      → J.marshal_event e ≡ some line
      → length line < max_line
      → read_line J prev line ≡ (check_event J prev e >>= λ event. ok (some event))
  unfolding read_line
  read_line-marshalled laws e line prev m short =
      let (s, shape) = laws.event_object e line m in
      let bare : drop_cr line ≡ line = rw shape (drop_cr-object s) in
      let full : is_empty line ≡ false = rw shape (is_empty-object s) in
      let fit : leb max_line (length line) ≡ false = ground arith in
      rw (bare, full, laws.event e line m, fit)

  check_event-linked :
      (e : Event) (prev : Text)
      → hash_event J e ≡ some e.hash
      → e.prev_hash ≡ prev
      → check_event J prev e ≡ ok e
  unfolding check_event
  check_event-linked e prev sealed linked =
      let same : text_eq e.prev_hash prev ≡ true = (text_eq_iff e.prev_hash prev).1 linked in
      rw (same, sealed, text_eq_refl)

  -- After one more line, a whole file replays to what it did, and then to that line.
  pub replay-write_line :
      (f : LogFile) (h : List Event) (line : Text)
      → f.tail ≡ []
      → replay J f ≡ ok h
      → replay J (write_line line f) ≡ read_on (line ∷ []) [] h
  unfolding replay write_line
  replay-write_line f h line whole old =
      let lines_before : scan f ≡ f.lines = ground arith in
      let replayed : replay_lines J [] f.lines ≡ ok h = rw lines_before at old in
      let line_after : f.tail ++ line ≡ line = rw whole in
      rw (line_after, replay_lines-append [] f.lines (line ∷ []), replayed)

  pub last_hash_from-snoc :
      (h : Text) (es : List Event) (e : Event) → last_hash_from h (es ++ e ∷ []) ≡ e.hash
  unfolding last_hash_from
  last_hash_from-snoc h [] e = refl
  last_hash_from-snoc h (x ∷ es) e = last_hash_from-snoc x.hash es e

  -- A whole file with one more event's line replays to one more event.
  pub replay-event :
      (laws : RoundTrips J) (f : LogFile) (h : List Event) (e : Event) (line : Text)
      → f.tail ≡ []
      → replay J f ≡ ok h
      → J.marshal_event e ≡ some line
      → length line < max_line
      → hash_event J e ≡ some e.hash
      → e.prev_hash ≡ last_hash_from [] h
      → replay J (write_line line f) ≡ ok (h ++ e ∷ [])
  unfolding replay_lines
  replay-event laws f h e line whole old m short sealed linked = rw (
    replay-write_line f h line whole old,
    read_line-marshalled laws e line (last_hash_from [] h) m short,
    check_event-linked e (last_hash_from [] h) sealed linked,
  )

  -- After an `append` that returns `e`, where its line fits the scanner, a log that was in step with
  -- its file still is, and its history has grown by `e` at the end.
  pub append-IsSynced :
      (laws : RoundTrips J) (env : AppendEnv) (event : Event) (log log' : Log) (e : Event)
      (h : List Event)
      → append J env event log ≡ (log', ok e)
      → Fits e
      → IsSynced log h
      → IsSynced log' (h ++ e ∷ [])
  unfolding complete write_line
  append-IsSynced laws env event log log' e h appended fits synced =
      let a = append-IsAppended env event log log' e appended in
      record {
        replayed = rw a.file (
            replay-event laws log.file h e a.line synced.whole synced.replayed a.marshalled
              (fits a.line a.marshalled) a.sealed
              (ap (λ (x : Event). x.prev_hash) a.content ∙ synced.hash));
        whole = ap (λ (f : LogFile). f.tail) a.file;
        hash = a.last_hash ∙ sym (last_hash_from-snoc [] h e);
      }
