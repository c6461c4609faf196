-- ===== src/Broker/Launches.antt =====
-- internal/broker/service.go: the requests that interleaved sections hand to the executor.
use request_sudo.Base.{
  ◌+◌, ◌≤◌, ◌≡◌, refl, ap, ◌∙◌, Bool, false, List, [], ◌∷◌, ◌++◌, Option, none, some, Text, arith,
  inl, inr,
}
use request_sudo.Core.{Request}
use request_sudo.Events.{
  EventType, request_approved, request_denied, execution_started, Event, Result, ok,
}
use request_sudo.Events.Json.{Json}
use request_sudo.Projection.{Projection, rebuild_from, rebuild, new}
use request_sudo.Projection.Counts.{is_start, count_events, one_approval_one_attempt}
use request_sudo.Projection.Rebuild.{rebuild_from-append}
use request_sudo.Broker.State.{Service}
use request_sudo.Broker.Requests.{Env, ReviewInput}
use request_sudo.Broker.Execute.{Begun, final_type}
use request_sudo.Broker.Effects.{Moves, stays, moves}
use request_sudo.Broker.ReviewGuards.{
  ReviewGuard, approval_of, denial_of, approve-Moves, deny-Moves,
}
use request_sudo.Broker.StartGuards.{Begins, refused, broken, started, begin-Begins}
use request_sudo.Broker.Kinds.{
  IsNot, Moves-map, Expires-IsNot, submit-IsNot, status-IsNot, finish-IsNot,
}
use request_sudo.Broker.Sections.{
  Section, submitting, asking, approving, denying, beginning, finishing, Launch, launched,
  run_section, run_sections, count_launches,
}

abbrev NotStart : Event → Type 0
NotStart = IsNot is_start

module _ (J : Json) where
  final_not_start : (o : Option Text) → is_start (final_type o) ≡ false
  final_not_start none = refl
  final_not_start (some text) = refl

  -- What a section applied, with as many starts of each request as it launched.
  Applied : Projection → Projection → List Launch → Type 0
  Applied p p' launches =
      (es : List Event) × (rebuild_from J p es ≡ ok p')
      × ((id : Text) → count_events is_start id es ≡ count_launches id launches)

  Moves-Applied : {p p' : Projection} → Moves J NotStart p p' → Applied p p' []
  unfolding Applied rebuild_from count_events count_launches
  Moves-Applied stays = ([], refl, λ id. refl)
  Moves-Applied (moves e other a) = (e ∷ [], rw a, λ id. ground (arith, other))

  ReviewGuard-NotStart :
      (type : EventType) (details : Option Text) (env : Env) (input : ReviewInput) (p : Projection)
      → is_start type ≡ false
      → (e : Event) → ReviewGuard J type details env input p e
      → NotStart e
  ReviewGuard-NotStart type details env input p other e (inl x) =
      Expires-IsNot J is_start refl env input.request_id p e x
  ReviewGuard-NotStart type details env input p other e (inr r) = ap is_start r.type_is ∙ other

  one_start :
      (e : Event) (id j : Text) (r : Request)
      → e.type ≡ execution_started
      → e.request_id ≡ id
      → count_events is_start j (e ∷ []) ≡ count_launches j (record { id = id; request = r } ∷ [])
  unfolding count_events count_launches
  one_start e id j r type mine = rw (type, mine) (ground arith)

  Begins-Applied :
      (env : Env) (id : Text) (s : Service) {q : Service × Result Begun}
      → Begins J env id s q
      → Applied s.projection q.0.projection (launched id q.1)
  unfolding Applied rebuild_from
  Begins-Applied env id s (refused t response m) =
      Moves-Applied (Moves-map J (Expires-IsNot J is_start refl env id s.projection) m)
  Begins-Applied env id s (broken t x m) =
      Moves-Applied (Moves-map J (Expires-IsNot J is_start refl env id s.projection) m)
  Begins-Applied env id s (started t e start a same) =
      (e ∷ [], rw a, λ j. one_start e id j start.snap.request start.type_is start.mine)

  run_section-Applied :
      (section : Section) (s : Service)
      → Applied s.projection (run_section J section s).0.projection (run_section J section s).1
  unfolding run_section
  run_section-Applied (submitting env id input) s =
      Moves-Applied (submit-IsNot J is_start refl env id input s refl)
  run_section-Applied (asking env id) s = Moves-Applied (status-IsNot J is_start refl env id s)
  run_section-Applied (approving env input) s = Moves-Applied (
      Moves-map J
        (ReviewGuard-NotStart request_approved (approval_of J input) env input s.projection refl)
        (approve-Moves J env input s))
  run_section-Applied (denying env input) s = Moves-Applied (
      Moves-map J
        (ReviewGuard-NotStart request_denied (denial_of J input) env input s.projection refl)
        (deny-Moves J env input s))
  run_section-Applied (beginning env id) s = Begins-Applied env id s (begin-Begins J env id s)
  run_section-Applied (finishing env id (result, exec_error)) s =
      Moves-Applied
        (finish-IsNot J is_start refl env id result exec_error s (final_not_start exec_error))

  count_events-append :
      (kind : EventType → Bool) (id : Text) (es fs : List Event)
      → count_events kind id (es ++ fs) ≡ count_events kind id es + count_events kind id fs
  unfolding count_events
  count_events-append kind id [] fs = omega arith
  count_events-append kind id (e ∷ es) fs = omega (arith, count_events-append kind id es fs)

  count_launches-append :
      (id : Text) (ls ms : List Launch)
      → count_launches id (ls ++ ms) ≡ count_launches id ls + count_launches id ms
  unfolding count_launches
  count_launches-append id [] ms = omega arith
  count_launches-append id (l ∷ ls) ms = omega (arith, count_launches-append id ls ms)

  run_sections-Applied :
      (sections : List Section) (s : Service)
      → Applied s.projection (run_sections J sections s).0.projection (run_sections J sections s).1
  unfolding run_sections Applied rebuild_from count_events count_launches
  run_sections-Applied [] s = ([], refl, λ id. refl)
  run_sections-Applied (section ∷ sections) s =
      let s' = (run_section J section s).0 in
      let (es, first, starts) = run_section-Applied section s in
      let (fs, second, starts') = run_sections-Applied sections s' in
      (
        es ++ fs,
        rebuild_from-append J s.projection s'.projection (run_sections J sections s').0.projection
            es fs first second,
        λ id. omega (
          arith,
          starts id,
          starts' id,
          count_events-append is_start id es fs,
          count_launches-append id (run_section J section s).1 (run_sections J sections s').1,
        ),
      )

  -- From a service whose projection was rebuilt from a history, no sequence of sections, whatever
  -- their inputs, the clock and the file system, hands a request to the executor more than once, and
  -- none hands one over whose execution the history had started before.
  pub at_most_one_launch :
      (h : List Event) (s : Service) (sections : List Section) (id : Text)
      → rebuild J h ≡ ok s.projection
      → count_events is_start id h + count_launches id (run_sections J sections s).1 ≤ 1
  unfolding rebuild Applied
  at_most_one_launch h s sections id built =
      let (es, later, starts) = run_sections-Applied sections s in
      let all_of_it =
        rebuild_from-append J new s.projection (run_sections J sections s).0.projection h es built
          later in
      omega (
        arith,
        (one_approval_one_attempt J (h ++ es) (run_sections J sections s).0.projection id
            all_of_it).1,
        starts id,
        count_events-append is_start id h es,
      )
