-- ===== src/Broker/Sections.antt =====
-- The service under any interleaving of its locked sections, as a sequence of sections. The mutex
-- makes each section atomic; between the two sections of `Execute` any others may run.
use request_sudo.Base.{ℕ, ◌+◌, List, [], ◌∷◌, ◌++◌, Option, Text, text_eq, if◌then◌else◌}
use request_sudo.Core.{Request, ExecutionResult}
use request_sudo.Events.{Result, ok, err}
use request_sudo.Events.Json.{Json}
use request_sudo.Events.Log.{AppendEnv}
use request_sudo.Broker.State.{Service}
use request_sudo.Broker.Requests.{Env, SubmitInput, ReviewInput, submit, status}
use request_sudo.Broker.Review.{approve, deny}
use request_sudo.Broker.Execute.{Begun, replied, running, begin_execute, finish_execute}

-- `finishing` may come at any time, for any request and with any result: more than the code does.
pub data Section : Type 0 where
  submitting : Env → Text → SubmitInput → Section
  asking : Env → Text → Section
  approving : Env → ReviewInput → Section
  denying : Env → ReviewInput → Section
  beginning : Env → Text → Section
  finishing : AppendEnv → Text → ExecutionResult × Option Text → Section

-- A request that was handed to the executor.
pub record Launch : Type 0 where
  pub id : Text
  pub request : Request

-- The launch that a begun execution is.
abbrev pub launched : Text → Result Begun → List Launch
launched id (ok (running request)) = record { id = id; request = request } ∷ []
launched id (ok (replied response)) = []
launched id (err x) = []

module _ (J : Json) where
  -- One section: the service after it, and what it handed to the executor.
  unfoldable pub run_section : Section → Service → Service × List Launch
  run_section (submitting env id input) s = ((submit J env id input s).0, [])
  run_section (asking env id) s = ((status J env id s).0, [])
  run_section (approving env input) s = ((approve J env input s).0, [])
  run_section (denying env input) s = ((deny J env input s).0, [])
  run_section (beginning env id) s = let (s', r) = begin_execute J env id s in (s', launched id r)
  run_section (finishing env id outcome) s = ((finish_execute J env id outcome s).0, [])

  unfoldable pub run_sections : List Section → Service → Service × List Launch
  run_sections [] s = (s, [])
  run_sections (section ∷ sections) s =
      let (s', now) = run_section section s in
      let (s'', later) = run_sections sections s' in (s'', now ++ later)

unfoldable pub count_launches : Text → List Launch → ℕ
count_launches id [] = 0
count_launches id (l ∷ ls) = (if text_eq l.id id then 1 else 0) + count_launches id ls
