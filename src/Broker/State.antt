-- ===== src/Broker/State.antt =====
-- The broker's state, and the actions that change it: what was written before an error stays
-- written, so that the state comes back beside the error too.
use request_sudo.Base.{ℕ, Text}
use request_sudo.Events.{Event, Failure, Result, ok, err}
use request_sudo.Events.Json.{Json}
use request_sudo.Events.Log.{Log, AppendEnv, append}
use request_sudo.Projection.{Projection, apply}
use request_sudo.Execution.{Executor}

-- `Service` of internal/broker/service.go. The clock is an argument of the operations.
pub record Service : Type 0 where
  pub log : Log
  pub projection : Projection
  pub executor : Executor
  pub ttl : ℕ
  pub hostname : Text

abbrev pub Exec : Type 0 → Type 0
Exec A = Service → Service × Result A

module _ {A B : Type 0} where
  -- An error ends the operation.
  abbrev pub continue : Result A → (A → Exec B) → Exec B
  continue (ok a) f s = f a s
  continue (err x) f s = (s, err x)

  infixl 10 ◌>>=◌
  unfoldable pub ◌>>=◌ : Exec A → (A → Exec B) → Exec B
  ◌>>=◌ m f s = let (s', r) = m s in continue r f s'

module _ {A : Type 0} where
  unfoldable pub pure : A → Exec A
  pure a s = (s, ok a)

  unfoldable pub fail : Failure → Exec A
  fail x s = (s, err x)

-- `s.projection.Apply(event)`
unfoldable pub applied : Result Projection → Exec Unit
applied (ok p) s = (record s { projection = p }, ok tt)
applied (err x) s = (s, err x)

module _ (J : Json) where
  -- After `s.log.Append` has returned.
  unfoldable pub appended : Log × Result Event → Exec Unit
  unfolding applied
  appended (log, err x) s = (record s { log = log }, err x)
  appended (log, ok e) s = applied (apply J s.projection e) (record s { log = log })

  -- `s.log.Append(event)`, and `s.projection.Apply` of the event that it returns: the two calls by
  -- which every operation of the service writes.
  unfoldable pub commit : AppendEnv → Event → Exec Unit
  unfolding appended
  commit env event s = appended (append J env event s.log) s
