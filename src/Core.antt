-- ===== src/Core.antt =====
-- internal/core/types.go: the data of a request, of its state and of its execution.
-- A `time.Time` is its number of nanoseconds; 0 is the zero time.
pub mod Describe
use request_sudo.Base.{ℕ, Bool, true, false, List, Option, Text, Map}
use request_sudo.Base.Int.{ℤ}

-- `unset` is the empty string, Go's zero value of the type.
pub data Status : Type 0 where
  unset pending approved denied expired executing executed failed revoked rejected error : Status

pub Status-discrete : Discrete Status
Status-discrete = hlevel

-- `Status.Terminal`
unfoldable pub terminal : Status → Bool
terminal denied = true
terminal expired = true
terminal executed = true
terminal failed = true
terminal revoked = true
terminal _ = false

pub record Actor : Type 0 where
  pub kind : Text
  pub id : Text

pub record PeerIdentity : Type 0 where
  pub uid : ℕ  -- uint32
  pub gid : ℕ  -- uint32
  pub pid : ℕ  -- int32, never negative
  pub username : Text

pub record ExecutionSpec : Type 0 where
  pub argv : List Text
  pub env : Map Text
  pub cwd : Text

pub record ApprovalSummary : Type 0 where
  pub requester : Text
  pub host : Text
  pub exact_command : Text
  pub reason : Text
  pub effect : Text
  pub risk : Text

pub record Request : Type 0 where
  pub id : Text
  pub argv : List Text
  pub reason : Text
  pub mode : Text
  pub requester : PeerIdentity
  pub host : Text
  pub created_at : ℕ
  pub expires_at : ℕ
  pub digest : Text
  pub spec : ExecutionSpec
  pub summary : ApprovalSummary

pub record ExecutionResult : Type 0 where
  pub started_at : ℕ
  pub finished_at : ℕ
  pub exit_code : ℤ
  pub stdout : Text
  pub stderr : Text
