-- ===== src/Adapter/Pending/AuditFile.antt =====
-- internal/twilioadapter/pending_set.go: how `ReplayFromAudit` reads the adapter's audit file. The
-- decoding of a line and of its time are parameters.
use request_sudo.Base.{
  ℕ, Bool, true, false, ◌&&◌, List, [], ◌∷◌, ◌++◌, Option, none, some, Text, codes, text_eq,
  if◌then◌else◌,
}
use request_sudo.Base.Lines.{cut_lines}
use request_sudo.Adapter.Pending.{
  RowType, opened, released, expired, other, Row, row, PendingSet, replay_from_audit,
}

-- `auditRow`
pub record AuditLine : Type 0 where
  pub type : Text
  pub request_id : Text
  pub recipient_phone : Text
  pub wall_ts : Text

-- `json.Unmarshal` into an `auditRow`, and `time.Parse`; none is an error.
pub record AuditDecoder : Type 0 where
  pub unmarshal_row : Text → Option AuditLine
  pub parse_time : Text → Option ℕ

unfoldable pub row_type : Text → RowType
row_type type =
    if text_eq type (codes "verify_pending_opened")
    then opened
    else if text_eq type (codes "verify_pending_released")
    then released
    else if text_eq type (codes "verify_pending_expired")
    then expired
    else other type

abbrev pub is_other : RowType → Bool
is_other (other type) = true
is_other _ = false

unfoldable pub timed_row : AuditLine → Option ℕ → List Row
unfolding row_type
timed_row a none = []
timed_row a (some ts) = row (row_type a.type) a.request_id a.recipient_phone ts ∷ []

module _ (D : AuditDecoder) where
  -- A row of another type is dropped, but not in a last line that does not end in a newline.
  unfoldable pub decoded_row : Bool → Option AuditLine → List Row
  unfolding timed_row
  decoded_row ended none = []
  decoded_row ended (some a) =
      if is_other (row_type a.type) && ended then [] else timed_row a (D.parse_time a.wall_ts)

  -- One turn of the first loop of `ReplayFromAudit`.
  unfoldable pub audit_line : Bool → Text → List Row
  unfolding decoded_row
  audit_line ended [] = []
  audit_line ended (c ∷ line) = decoded_row ended (D.unmarshal_row (c ∷ line))

  unfoldable pub audit_lines : List Text → List Row
  unfolding audit_line
  audit_lines [] = []
  audit_lines (line ∷ lines) = audit_line true line ++ audit_lines lines

  unfoldable pub read_rows : Text → List Row
  unfolding audit_lines cut_lines
  read_rows content =
      let (lines, last) = cut_lines content in audit_lines lines ++ audit_line false last

  -- What the file system answers.
  pub data AuditRead : Type 0 where
    missing unopened : AuditRead
    whole broken : Text → AuditRead

  -- `ReplayFromAudit`; false is an error.
  unfoldable pub replay_file : AuditRead → PendingSet → PendingSet × Bool
  unfolding read_rows
  replay_file missing ps = (ps, true)
  replay_file unopened ps = (ps, false)
  replay_file (whole content) ps = (replay_from_audit (read_rows content) ps, true)
  replay_file (broken content) ps = (ps, false)
