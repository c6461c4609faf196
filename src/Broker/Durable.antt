-- ===== src/Broker/Durable.antt =====
-- internal/broker/service.go: the log on disk against the projection in memory, across one write.
use request_sudo.Base.{
  ◌<◌, ◌≡◌, ap, sym, subst, ◌∙◌, List, [], ◌∷◌, ◌++◌, Option, none, some, Text, length, ◌⊎◌,
  some-eq-some, arith,
}
use request_sudo.Events.{Event, Failure, Result, ok, err}
use request_sudo.Events.Json.{Json, RoundTrips}
use request_sudo.Events.Log.{
  Log, LogFile, AppendIo, done, cannot_open, cannot_sync, short_write, AppendEnv, max_line, append,
  append_hashed, append_marshalled, write_event, write_line, hash_event, complete,
}
use request_sudo.Events.Log.Replay.{IsSynced, append-IsAppended, append-IsSynced, Fits}
use request_sudo.Projection.{Projection, apply, rebuild}
use request_sudo.Projection.Rebuild.{rebuild-snoc}
use request_sudo.Broker.State.{Service, commit}
use request_sudo.Broker.Execute.{load}
use request_sudo.Broker.Effects.{Completes, Commits, no_append, no_apply, written, commit-Commits}

-- Every line is short enough for the scanner that reads the log.
abbrev pub LinesFit : List Text → Type 0
LinesFit [] = Unit {0}
LinesFit (line ∷ lines) = (length line < max_line) × LinesFit lines

-- The append writes all of its line and syncs it, or cannot open the file.
abbrev pub IsClean : AppendEnv → Type 0
IsClean env = (env.io ≡ done) ⊎ (env.io ≡ cannot_open)

LinesFit-snoc :
    (lines : List Text) (line : Text)
    → LinesFit (lines ++ line ∷ [])
    → LinesFit lines × (length line < max_line)
LinesFit-snoc [] line h = (tt, h.0)
LinesFit-snoc (l ∷ lines) line h =
    let (before, last) = LinesFit-snoc lines line h.1 in ((h.0, before), last)

module _ (J : Json) where
  -- The file replays to `history`, which rebuilds the projection.
  pub record Durable (s : Service) : Type 0 where
    pub history : List Event
    pub synced : IsSynced J s.log history
    pub rebuilt : rebuild J history ≡ ok s.projection

  -- Where an append writes and syncs its whole line or cannot open the file, one that fails leaves the
  -- log as it was.
  append_fails_clean :
      (env : AppendEnv) (event : Event) (log log' : Log) (x : Failure)
      → IsClean env
      → append J env event log ≡ (log', err x)
      → log' ≡ log
  unfolding append
  append_fails_clean env event log log' x clean h =
      hashed (complete J env event log) (hash_event J (complete J env event log)) h
    where
      wrote :
          (io : AppendIo) (e : Event) (line : Text)
          → (io ≡ done) ⊎ (io ≡ cannot_open)
          → write_event J io e line log ≡ (log', err x)
          → log' ≡ log
      wrote done e line c k = absurd (ground arith)
      wrote cannot_open e line c k = ground arith
      wrote cannot_sync e line c k = absurd (ground arith)
      wrote (short_write n) e line c k = absurd (ground arith)

      marshalled :
          (io : AppendIo) (e : Event) (o : Option Text)
          → (io ≡ done) ⊎ (io ≡ cannot_open)
          → append_marshalled J io e o log ≡ (log', err x)
          → log' ≡ log
      marshalled io e (some line) c k = wrote io e line c k
      marshalled cannot_open e none c k = ground arith
      marshalled _ e none c k = ground arith

      hashed :
          (e : Event) (o : Option Text)
          → append_hashed J env.io e o log ≡ (log', err x)
          → log' ≡ log
      hashed e none k = ground arith
      hashed e (some hash) k =
          marshalled env.io (record e { hash = hash }) (J.marshal_event (record e { hash = hash }))
            clean k

  -- The line that a successful append adds to a whole file is its event's.
  written_line-Fits :
      (env : AppendEnv) (event : Event) (log log' : Log) (e : Event)
      → log.file.tail ≡ []
      → append J env event log ≡ (log', ok e)
      → LinesFit log'.file.lines
      → Fits J e
  unfolding write_line
  written_line-Fits env event log log' e whole h fits line m =
      let a = append-IsAppended J env event log log' e h in
      let same : a.line ≡ line = some-eq-some (sym a.marshalled ∙ m) in
      let lines : log'.file.lines ≡ log.file.lines ++ (log.file.tail ++ a.line) ∷ [] =
        ap (λ (f : LogFile). f.lines) a.file in
      let short : length (log.file.tail ++ a.line) < max_line =
        (LinesFit-snoc log.file.lines (log.file.tail ++ a.line) (subst LinesFit lines fits)).1 in
      subst (λ (t : Text). length t < max_line) (ap (λ (t : Text). t ++ a.line) whole ∙ same) short

  -- `commit` keeps a service durable if the projection accepts the event.
  pub commit-Durable :
      (laws : RoundTrips J) (env : AppendEnv) (event : Event) (s : Service)
      → IsClean env
      → ((e : Event) → Completes J event e → (p : Projection) × (apply J s.projection e ≡ ok p))
      → LinesFit (commit J env event s).0.log.file.lines
      → Durable s
      → Durable (commit J env event s).0
  commit-Durable laws env event s clean accepted fits d = go (commit-Commits J env event s) fits
    where
      contradicts :
          (e : Event) (x : Failure)
          → (p : Projection) × (apply J s.projection e ≡ ok p)
          → apply J s.projection e ≡ err x
          → ⊥
      contradicts e x (p, good) bad = cc

      line_fits :
          (log : Log) (e : Event)
          → append J env event s.log ≡ (log, ok e)
          → LinesFit log.file.lines
          → Fits J e
      line_fits log e a f line m = written_line-Fits env event s.log log e d.synced.whole a f line m

      go :
          {q : Service × Result (Unit {0})}
          → Commits J env event s q
          → LinesFit q.0.log.file.lines
          → Durable q.0
      go (no_append log x a) f =
          let same = append_fails_clean env event s.log log x clean a in
          record { history = d.history; synced = rw same d.synced; rebuilt = d.rebuilt }
      go (no_apply log e x a c b) f = absurd (contradicts e x (accepted e c) b)
      go (written log e p a c b) f = record {
        history = d.history ++ e ∷ [];
        synced =
            append-IsSynced J laws env event s.log log e d.history a (line_fits log e a f) d.synced;
        rebuilt = rebuild-snoc J d.history s.projection p e d.rebuilt b;
      }

  -- A restart reads back the projection that was in memory.
  pub load-Durable : (s : Service) → Durable s → load J s.log ≡ ok s.projection
  unfolding load
  load-Durable s d = rw d.synced.replayed d.rebuilt
