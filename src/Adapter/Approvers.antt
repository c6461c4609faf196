-- ===== src/Adapter/Approvers.antt =====
-- internal/twilioadapter/approvers.go: the reading of approvers.yaml.
use request_sudo.Base.{
  ℕ, suc, Bool, true, false, not, ◌&&◌, List, [], ◌∷◌, ◌++◌, Option, none, some, Text, codes,
  text_eq, Map, lookup, insert, length, is_empty, leb, ◌==◌, if◌then◌else◌,
}
use request_sudo.Base.Lines.{cut_at, cut_suffix, has_prefix, trim_prefix, trim_quotes}
use request_sudo.Base.Trim.{trim_space}
use request_sudo.Events.Log.{drop_cr}
use request_sudo.Adapter.Phones.{ApproversPolicy}
use request_sudo.Adapter.Config.{FileRead, no_path, no_file, read, broken, max_line, scanned}

-- `yamlSection`
pub data YamlSection : Type 0 where
  sec_none sec_approver_sets sec_approvers sec_routing : YamlSection

-- The variables of the loop of `parseApprovers`.
pub record ParseState : Type 0 where
  pub policy : ApproversPolicy
  pub section : YamlSection
  pub current_set_name : Text
  pub current_approver : Text
  pub current_requester : Text
  pub in_phones : Bool

abbrev pub no_policy : ApproversPolicy
no_policy = record { approver_sets = []; phones = []; routing = [] }

abbrev pub parse_start : ParseState
parse_start = record {
  policy = no_policy;
  section = sec_none;
  current_set_name = [];
  current_approver = [];
  current_requester = [];
  in_phones = false;
}

-- `stripComment`
unfoldable pub strip_comment : Text → Text
unfolding cut_at
strip_comment line = elim (cut_at 35 line) [ none ↦ line | some (before, after) ↦ before ]

-- `leadingSpaces`
unfoldable pub leading_spaces : Text → ℕ
leading_spaces [] = 0
leading_spaces (c ∷ s) = let rest = leading_spaces s in if c == 32 then suc rest else 0

unfoldable pub section_of : Text → YamlSection
section_of head =
    if text_eq head (codes "approver_sets")
    then sec_approver_sets
    else if text_eq head (codes "approvers")
    then sec_approvers
    else if text_eq head (codes "routing")
    then sec_routing
    else sec_none

-- A section header.
unfoldable pub open_section : Text → ParseState → ParseState
unfolding section_of
open_section head st = record {
  policy = st.policy;
  section = section_of head;
  current_set_name = [];
  current_approver = [];
  current_requester = [];
  in_phones = false;
}

-- The item of a list entry.
unfoldable pub item_of : Text → Text
unfolding trim_quotes trim_prefix trim_space
item_of trimmed = trim_quotes (trim_space (trim_prefix trimmed (codes "- ")))

unfoldable pub items_of : Option (List Text) → List Text
items_of none = []
items_of (some items) = items

abbrev pub append_item : Text → Text → Map (List Text) → Map (List Text)
append_item key item m = insert key (items_of (lookup key m) ++ item ∷ []) m

abbrev pub is_item : Text → Bool
is_item trimmed = has_prefix trimmed (codes "- ")

-- `case secApproverSets`
unfoldable pub approver_sets_line : ℕ → Text → Option Text → ParseState → ParseState
unfolding item_of has_prefix items_of
approver_sets_line indent trimmed header st =
    let listed =
      if leb 4 indent && is_item trimmed && not (is_empty st.current_set_name)
      then record st {
        policy = record st.policy {
          approver_sets = append_item st.current_set_name (item_of trimmed) st.policy.approver_sets;
        };
      }
      else st in
    if indent == 2
    then elim header [
      | some name ↦ record st {
        current_set_name = name;
        policy = record st.policy { approver_sets = insert name [] st.policy.approver_sets };
      }
      | none ↦ listed
    ]
    else listed

-- `case secApprovers`
unfoldable pub approvers_line : ℕ → Text → Option Text → ParseState → ParseState
unfolding item_of has_prefix items_of
approvers_line indent trimmed header st =
    let listed =
      if indent == 4 && text_eq trimmed (codes "phones:")
      then record st { in_phones = true }
      else if st.in_phones && leb 6 indent && is_item trimmed && not (is_empty st.current_approver)
      then record st {
        policy = record st.policy {
          phones = append_item st.current_approver (item_of trimmed) st.policy.phones;
        };
      }
      else if indent == 4
      then record st { in_phones = false }
      else st in
    if indent == 2
    then elim header [
      | some name ↦ record st {
        current_approver = name;
        policy = record st.policy { phones = insert name [] st.policy.phones };
        in_phones = false;
      }
      | none ↦ listed
    ]
    else listed

-- The line `key: value` of a requester.
unfoldable pub routing_value : Option (Text × Text) → ParseState → ParseState
unfolding trim_space trim_quotes
routing_value none st = st
routing_value (some (key, value)) st =
    if text_eq (trim_space key) (codes "approver_set")
    then record st {
      policy = record st.policy {
        routing = insert st.current_requester (trim_quotes (trim_space value)) st.policy.routing;
      };
    }
    else st

-- `case secRouting`
unfoldable pub routing_line : ℕ → Text → Option Text → ParseState → ParseState
unfolding routing_value cut_at
routing_line indent trimmed header st =
    let valued =
      if leb 4 indent && not (is_empty st.current_requester)
      then routing_value (cut_at 58 trimmed) st
      else st in
    if indent == 2
    then elim header [ some name ↦ record st { current_requester = name } | none ↦ valued ]
    else valued

-- The `switch` on the section.
unfoldable pub section_line : YamlSection → ℕ → Text → Option Text → ParseState → ParseState
unfolding approver_sets_line approvers_line routing_line
section_line sec_none indent trimmed header st = st
section_line sec_approver_sets indent trimmed header st =
    approver_sets_line indent trimmed header st
section_line sec_approvers indent trimmed header st = approvers_line indent trimmed header st
section_line sec_routing indent trimmed header st = routing_line indent trimmed header st

-- A line without indentation: a section header, a scalar, or neither.
unfoldable pub top_line : Text → Option Text → ParseState → ParseState
unfolding open_section section_line cut_at
top_line trimmed (some head) st = open_section head st
top_line trimmed none st = elim (cut_at 58 trimmed) [
  | some parts ↦ record st { section = sec_none }
  | none ↦ section_line st.section 0 trimmed none st
]

-- One turn of the loop of `parseApprovers`, for the line without its comment.
unfoldable pub yaml_line : Text → ParseState → ParseState
unfolding top_line section_line trim_space leading_spaces cut_suffix
yaml_line stripped st =
    let trimmed = trim_space stripped in
    if is_empty trimmed
    then st
    else if leading_spaces stripped == 0
    then top_line trimmed (cut_suffix 58 trimmed) st
    else section_line st.section (leading_spaces stripped) trimmed (cut_suffix 58 trimmed) st

-- The errors of `LoadApprovers`.
pub data ApproversError : Type 0 where
  bad_path not_opened line_too_long read_failed no_sections : ApproversError

pub data Parsed (A : Type 0) : Type 0 where
  parsed : A → Parsed A
  refused : ApproversError → Parsed A

unfoldable pub parse_lines : List Text → ParseState → Parsed ParseState
unfolding yaml_line strip_comment drop_cr
parse_lines [] st = parsed st
parse_lines (line ∷ lines) st =
    if leb max_line (length line)
    then refused line_too_long
    else parse_lines lines (yaml_line (strip_comment (drop_cr line)) st)

unfoldable pub check_policy : ApproversPolicy → Parsed ApproversPolicy
check_policy policy =
    if is_empty policy.approver_sets && is_empty policy.routing
    then refused no_sections
    else parsed policy

-- `LoadApprovers`, with `parseApprovers`.
unfoldable pub load_approvers : FileRead → Parsed ApproversPolicy
unfolding parse_lines check_policy scanned
load_approvers no_path = refused bad_path
load_approvers no_file = refused not_opened
load_approvers (read content) = elim (parse_lines (scanned content) parse_start) [
  | parsed st ↦ check_policy st.policy
  | refused e ↦ refused e
]
load_approvers (broken content) = elim (parse_lines (scanned content) parse_start) [
  | parsed st ↦ refused read_failed
  | refused e ↦ refused e
]
