-- ===== src/Commands.antt =====
-- cmd/request-sudo, cmd/request-sudoctl and cmd/request-sudod: what the commands read from their
-- arguments.
pub mod Ids
use request_sudo.Base.{
  ℕ, ◌+◌, ◌*◌, ◌-◌, Bool, true, false, not, ◌&&◌, List, [], ◌∷◌, Option, none, some, Text, codes,
  is_empty, leb, ltb, if◌then◌else◌,
}
use request_sudo.Base.Lines.{split_at}
use request_sudo.Base.Trim.{trim_space}
use request_sudo.Core.{Actor}
use request_sudo.Protocol.{
  Action, request_submit, request_status, request_execute, review_approve, review_deny, WireRequest,
}
use request_sudo.Socket.{Server, new_server}

-- `1<<32`
abbrev pub uint32_limit : ℕ
uint32_limit = 4294967296

-- The value of decimal digits, from the value of the digits before them; none at another byte.
unfoldable pub digits_value : ℕ → Text → Option ℕ
digits_value n [] = some n
digits_value n (c ∷ s) =
    let rest = digits_value (10 * n + (c - 48)) s in if leb b'0' c && leb c b'9' then rest else none

unfoldable pub in_range : Option ℕ → Option ℕ
in_range none = none
in_range (some n) = if ltb n uint32_limit then some n else none

-- `strconv.ParseUint(part, 10, 32)`; none is an error.
unfoldable pub parse_uint32 : Text → Option ℕ
unfolding digits_value in_range
parse_uint32 [] = none
parse_uint32 (c ∷ s) = in_range (digits_value 0 (c ∷ s))

unfoldable pub add_id : Option ℕ → List ℕ → List ℕ
add_id none ids = ids
add_id (some id) ids = id ∷ ids

-- The loop of `parseIDs`.
unfoldable pub ids_of : List Text → List ℕ
unfolding add_id parse_uint32 trim_space
ids_of [] = []
ids_of (part ∷ parts) = add_id (parse_uint32 (trim_space part)) (ids_of parts)

-- `parseIDs`, with the effective user id of the process.
unfoldable pub parse_ids : ℕ → Text → List ℕ
unfolding ids_of split_at
parse_ids euid raw = let out = ids_of (split_at 44 raw) in if is_empty out then euid ∷ [] else out

-- The server that `main` makes from its two options.
unfoldable pub daemon_server : ℕ → Text → Text → Server
unfolding parse_ids new_server
daemon_server euid review_uids review_gids =
    new_server (parse_ids euid review_uids) (parse_ids euid review_gids)

abbrev no_actor : Actor
no_actor = record { kind = []; id = [] }

abbrev pub empty_request : Action → WireRequest
empty_request action = record {
  action = action;
  argv = [];
  reason = [];
  mode = [];
  request_id = [];
  approver = no_actor;
  approval_code = [];
  cwd = [];
}

-- The message of `handleRequest`; none where there is no argv.
unfoldable pub submit_message : List Text → Text → Text → Text → Option WireRequest
submit_message argv reason mode cwd =
    if is_empty argv
    then none
    else some (record (empty_request request_submit) {
      argv = argv;
      reason = reason;
      mode = mode;
      cwd = cwd;
    })

-- The one argument that `fs.NArg() != 1` asks for.
unfoldable pub with_id : (Text → WireRequest) → List Text → Option WireRequest
with_id message (id ∷ []) = some (message id)
with_id message _ = none

-- The messages of `handleStatus` and `handleExecute`.
unfoldable pub status_message : List Text → Option WireRequest
unfolding with_id
status_message args = with_id (λ id. record (empty_request request_status) { request_id = id }) args

unfoldable pub execute_message : List Text → Option WireRequest
unfolding with_id
execute_message args =
    with_id (λ id. record (empty_request request_execute) { request_id = id }) args

-- `chooseCode`
unfoldable pub choose_code : Text → Text → Text
choose_code primary alias = if not (is_empty primary) then primary else alias

-- The messages of `handleApprove` and `handleDeny`.
unfoldable pub approve_message : Actor → Text → Text → List Text → Option WireRequest
unfolding with_id choose_code
approve_message approver approval_code code args =
    with_id
      (λ id. record (empty_request review_approve) {
        request_id = id;
        approver = approver;
        approval_code = choose_code approval_code code;
      })
      args

unfoldable pub deny_message : Actor → Text → List Text → Option WireRequest
unfolding with_id
deny_message approver reason args =
    with_id
      (λ id. record (empty_request review_deny) {
        request_id = id;
        approver = approver;
        reason = reason;
      })
      args
