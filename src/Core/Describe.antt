-- ===== src/Core/Describe.antt =====
-- internal/core/summary.go: the summary that an approver reads.
use request_sudo.Base.{
  Bool, ◌||◌, List, [], ◌∷◌, ◌++◌, Text, codes, text_eq, itoa, is_empty, if◌then◌else◌,
}
use request_sudo.Base.Trim.{trim_space, join}
use request_sudo.Core.{PeerIdentity, ApprovalSummary}

abbrev is_one_of : Text → Text → Text → Text → Text → Bool
is_one_of s a b c d = text_eq s a || text_eq s b || text_eq s c || text_eq s d

-- The `switch argv[0]`: what the command does, and its risk.
effect_and_risk : List Text → Text × Text
effect_and_risk [] = (
  codes "run a privileged command",
  codes "privileged action requested; review exact argv before approval",
)
effect_and_risk (command ∷ _) =
    if text_eq command (codes "systemctl")
    then (
      codes "change the lifecycle of a system service",
      codes "may interrupt or restart a service if approved",
    )
    else if is_one_of command (codes "apt") (codes "apt-get") (codes "dnf") (codes "yum")
    then (
      codes "change installed system packages",
      codes "may alter package state or install new software",
    )
    else if is_one_of command (codes "cp") (codes "mv") (codes "rm") (codes "ln")
    then (codes "change filesystem state", codes "may overwrite, remove, or relink files")
    else if is_one_of command (codes "tee") (codes "sed") (codes "sh") (codes "bash")
    then (
      codes "mutate system configuration or execute shell logic",
      codes "shell-level changes deserve close review before approval",
    )
    else (
      codes "run a privileged command",
      codes "privileged action requested; review exact argv before approval",
    )

-- The username, or `uid:` and the user id of a peer that has none.
unfoldable pub peer_label : PeerIdentity → Text
peer_label peer = if is_empty peer.username then codes "uid:" ++ itoa peer.uid else peer.username

-- `DescribeRequest`
unfoldable pub describe_request : Text → PeerIdentity → List Text → Text → ApprovalSummary
unfolding effect_and_risk peer_label
describe_request host requester argv reason = record {
  requester = peer_label requester;
  host = host;
  exact_command = join (codes " ") argv;
  reason = if is_empty (trim_space reason) then codes "No requester reason supplied." else reason;
  effect = (effect_and_risk argv).0;
  risk = (effect_and_risk argv).1;
}
