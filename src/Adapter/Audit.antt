-- ===== src/Adapter/Audit.antt =====
-- internal/twilioadapter/webhook_handler.go and cmd/request-sudo-twilio-adapter/main.go: the rows of
-- the adapter's audit file, one constructor for each place that writes one.
use request_sudo.Base.{Option, Text, List, [], ◌∷◌}
use request_sudo.Core.{Status}
use request_sudo.Protocol.{Message}
use request_sudo.Adapter.Pending.{Row}
use request_sudo.Adapter.Verify.{SendResult, TwilioError}

-- The row of `emitUnbound`. The fields: `request_id` unless it is empty, `recipient_masked`, `reason`,
-- `body_preview`.
pub data UnboundRow : Type 0 where
  verify_unbound_reply : Option Text → Text → Text → Text → UnboundRow

-- The rows of `HandleInboundReply`.
pub data ReplyRow : Type 0 where
  -- The fields: `request_id`, `recipient_masked`, `verify_status`, `reason` or `error`,
  -- `verify_session_sid` unless it is empty.
  verify_check_rejected : Text → Text → Text → Option TwilioError → Option Text → ReplyRow
  -- The fields: `request_id`, `recipient_masked`, `verify_session_sid`, `broker_status`,
  -- `broker_message`.
  sms_approval_consumed : Text → Text → Text → Status → Message → ReplyRow
  -- The fields: `request_id`, `recipient_masked`, `broker_status`, `broker_message`.
  sms_denial_consumed : Text → Text → Status → Message → ReplyRow

-- The rows of `handlePending`.
pub data SendRow : Type 0 where
  -- The fields: `request_id`, `requester`.
  sms_routing_empty : Text → Text → SendRow
  -- The fields of the others begin with `request_id`, `recipient_masked`.
  unsupported_region routing_blocked_same_phone sms_sent_dry_run : Text → Text → SendRow
  twilio_send_failed : Text → Text → TwilioError → SendRow
  sms_sent : Text → Text → SendResult → SendRow

-- What `AuditEmitter.Write` is given, by the part that writes it.
pub data AuditRow : Type 0 where
  pending_row : Row → AuditRow
  unbound_row : UnboundRow → AuditRow
  reply_row : ReplyRow → AuditRow
  send_row : SendRow → AuditRow

-- The rows that the pending set emits, among the others.
unfoldable pub pending_rows : List Row → List AuditRow
pending_rows [] = []
pending_rows (r ∷ rs) = pending_row r ∷ pending_rows rs
