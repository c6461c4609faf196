-- ===== src/Execution.antt =====
-- internal/execution/executor.go: what a request freezes of its execution, and how it is run.
pub mod Paths
use request_sudo.Base.{
  ℕ, Bool, false, not, List, [], ◌∷◌, ◌++◌, Option, none, some, Text, codes, text_eq, Map, lookup,
  keys, sort_texts, is_empty, ◌==◌, if◌then◌else◌,
}
use request_sudo.Base.Int.{ℤ, pos, negsuc}
use request_sudo.Base.Trim.{trim_space}
use request_sudo.Core.{ExecutionSpec, Request, ExecutionResult}

-- `Executor`. An error is its text.
pub record Executor : Type 0 where
  pub name : Text
  pub execute : Request → ExecutionResult × Option Text

-- `DefaultSanitizedEnv`
unfoldable pub default_sanitized_env : Map Text
default_sanitized_env =
    (codes "PATH", codes "/usr/sbin:/usr/bin:/sbin:/bin")
    ∷ (codes "LANG", codes "C")
    ∷ (codes "LC_ALL", codes "C")
    ∷ []

-- `filepath.IsAbs`
abbrev pub is_abs : Text → Bool
is_abs [] = false
is_abs (c ∷ _) = c == b'/'

-- A byte before the parts of a path that are read already.
extend_part : ℕ → List Text → List Text
extend_part c [] = (c ∷ []) ∷ []
extend_part c (part ∷ parts) = (c ∷ part) ∷ parts

-- The parts of a path between its slashes.
unfoldable pub split_path : Text → List Text
unfolding extend_part
split_path [] = [] ∷ []
split_path (c ∷ s) = let rest = split_path s in if c == b'/' then [] ∷ rest else extend_part c rest

abbrev pub pop : List Text → List Text
pop [] = []
pop (_ ∷ parts) = parts

-- One part of a path against the parts before it, the last of them first.
unfoldable pub clean_part : Text → List Text → List Text
clean_part part before =
    if is_empty part
    then before
    else if text_eq part (codes ".")
    then before
    else if text_eq part (codes "..")
    then pop before
    else part ∷ before

unfoldable pub clean_parts : List Text → List Text → List Text
unfolding clean_part
clean_parts [] before = before
clean_parts (part ∷ parts) before = clean_parts parts (clean_part part before)

-- The path with these parts, the last of them first.
unfoldable pub rooted : List Text → Text → Text
rooted [] path = path
rooted (part ∷ before) path = rooted before (codes "/" ++ (part ++ path))

-- `filepath.Clean` of a path that `filepath.IsAbs` accepts.
unfoldable pub clean_abs : Text → Text
unfolding split_path clean_parts rooted
clean_abs path =
    let parts = clean_parts (split_path path) [] in
    if is_empty parts then codes "/" else rooted parts []

-- `normalizeCwd`
unfoldable pub normalize_cwd : Text → Text
unfolding clean_abs
normalize_cwd cwd =
    if is_empty cwd
    then codes "/"
    else if not (is_abs cwd)
    then codes "/"
    else if is_empty (trim_space (clean_abs cwd))
    then codes "/"
    else clean_abs cwd

-- `BuildExecutionSpec`
unfoldable pub build_execution_spec : List Text → Text → ExecutionSpec
build_execution_spec argv cwd = record {
  argv = argv;
  env = default_sanitized_env;
  cwd = normalize_cwd cwd;
}

env_entries : Map Text → List Text → List Text
env_entries env [] = []
env_entries env (key ∷ ks) =
    let rest = env_entries env ks in
    elim (lookup key env) [ some value ↦ (key ++ (codes "=" ++ value)) ∷ rest | none ↦ rest ]

-- `envSlice`
unfoldable pub env_slice : Map Text → List Text
unfolding env_entries
env_slice env = env_entries env (sort_texts (keys env))

-- The `*exec.Cmd` that is run.
pub record Command : Type 0 where
  pub path : Text
  pub args : List Text
  pub dir : Text
  pub env : List Text

-- What `cmd.Run` leaves: the output, and an error if it returned one, with the exit code if that is
-- an `*exec.ExitError`.
pub data RunError : Type 0 where
  exit_error : ℤ → Text → RunError
  start_error : Text → RunError

pub record Ran : Type 0 where
  pub stdout : Text
  pub stderr : Text
  pub error : Option RunError

exit_code_of : Option RunError → ℤ
exit_code_of none = pos 0
exit_code_of (some (exit_error code message)) = code
exit_code_of (some (start_error message)) = negsuc 0

message_of : Option RunError → Option Text
message_of none = none
message_of (some (exit_error code message)) = some message
message_of (some (start_error message)) = some message

-- `LocalExecutor.Execute` between two readings of the clock; `run` is the operating system.
module _ (run : Command → Ran) (started finished : ℕ) where
  execute_argv : List Text → Request → ExecutionResult × Option Text
  unfolding exit_code_of message_of
  execute_argv [] req = (
    record {
      started_at = started;
      finished_at = finished;
      exit_code = negsuc 0;
      stdout = [];
      stderr = codes "empty argv";
    },
    some (codes "empty argv"),
  )
  execute_argv (path ∷ args) req =
      let ran = run (record {
        path = path;
        args = args;
        dir = normalize_cwd req.spec.cwd;
        env = env_slice req.spec.env;
      }) in
      (
        record {
          started_at = started;
          finished_at = finished;
          exit_code = exit_code_of ran.error;
          stdout = ran.stdout;
          stderr = ran.stderr;
        },
        message_of ran.error,
      )

  unfoldable pub local_execute : Request → ExecutionResult × Option Text
  unfolding execute_argv
  local_execute req = execute_argv req.spec.argv req

  unfoldable pub local_executor : Executor
  unfolding local_execute
  local_executor = record { name = codes "local-exec"; execute = local_execute }
