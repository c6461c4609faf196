-- ===== src/Broker/RestartSafe.antt =====
-- internal/broker/service.go: `NewService` on the log that a section leaves.
use request_sudo.Base.{◌≡◌}
use request_sudo.Events.{ok}
use request_sudo.Events.Json.{Json, RoundTrips}
use request_sudo.Broker.State.{Service}
use request_sudo.Broker.Requests.{submit}
use request_sudo.Broker.Execute.{load}
use request_sudo.Broker.Durable.{LinesFit, Durable, load-Durable}
use request_sudo.Broker.Sections.{
  Section, submitting, asking, approving, denying, beginning, finishing, run_section,
}
use request_sudo.Broker.ReviewDurable.{approve-Durable, deny-Durable}
use request_sudo.Broker.SectionsDurable.{
  IsReady, begin-Durable, status-Durable, finish-Durable, submit_argv-Durable,
}

module _ (J : Json) (laws : RoundTrips J) where
  run_section-Durable :
      (section : Section) (s : Service)
      → IsReady section s
      → LinesFit (run_section J section s).0.log.file.lines
      → Durable J s
      → Durable J (run_section J section s).0
  unfolding run_section submit
  run_section-Durable (submitting env id input) s ready f d =
      submit_argv-Durable J laws env id input input.argv s ready.0 ready.1 f d
  run_section-Durable (asking env id) s ready f d = status-Durable J laws env id s ready f d
  run_section-Durable (approving env input) s ready f d =
      approve-Durable J laws env input s ready.0 ready.1 f d
  run_section-Durable (denying env input) s ready f d =
      deny-Durable J laws env input s ready.0 ready.1 f d
  run_section-Durable (beginning env id) s ready f d =
      begin-Durable J laws env id s ready.0 ready.1 f d
  run_section-Durable (finishing env id (result, exec_error)) s (clean, (snap, there, busy)) f d =
      finish-Durable J laws env id result exec_error snap s clean there busy f d

  -- Where the log replays to a history that rebuilds the projection, and a section runs whose
  -- appends either write and sync their whole line or cannot open the file, whose submitted id is
  -- new and whose finished request is executing, then the log again replays to such a history, if
  -- its lines fit the scanner, and what `NewService` loads from it is the projection that the
  -- section left in memory.
  pub restart_finds_state :
      (section : Section) (s : Service)
      → IsReady section s
      → LinesFit (run_section J section s).0.log.file.lines
      → Durable J s
      → Durable J (run_section J section s).0
        × (load J (run_section J section s).0.log ≡ ok (run_section J section s).0.projection)
  restart_finds_state section s ready f d =
      let after = run_section-Durable section s ready f d in
      (after, load-Durable J (run_section J section s).0 after)
