-- ===== src/Adapter/Send.antt =====
-- cmd/request-sudo-twilio-adapter/main.go: `handlePending`, which asks for the verification of a new
-- request by text message.
pub mod Slots
pub mod Loop
use request_sudo.Base.{
  ℕ, Bool, true, false, not, List, [], ◌∷◌, ◌++◌, Option, none, some, Text, is_empty, if◌then◌else◌,
}
use request_sudo.Adapter.Phones.{mask_phone, is_allowed_country, ApproversPolicy, lookup_recipients}
use request_sudo.Adapter.Pending.{PendingSet, Row, open_pending, release}
use request_sudo.Adapter.Verify.{SendResult, TwilioError}
use request_sudo.Adapter.Audit.{
  SendRow, AuditRow, send_row, sms_routing_empty, unsupported_region, routing_blocked_same_phone,
  sms_sent_dry_run, twilio_send_failed, sms_sent, pending_rows,
}

-- `PendingRequest`, with the fields that are used.
pub record PendingRequest : Type 0 where
  pub request_id : Text
  pub requester : Text
  pub argv : List Text
  pub reason : Text
  pub created_at : ℕ

-- What the adapter holds, with the rows of its audit file, and the phones for which it has called
-- Twilio.
pub record Outbox : Type 0 where
  pub pending : PendingSet
  pub audit : List AuditRow
  pub sends : List Text

-- The settings of `main`.
pub record Channel : Type 0 where
  pub policy : ApproversPolicy
  pub allowed : List Text
  pub dry_run : Bool

-- The clock at the two calls of the pending set, and Twilio's answer, for each phone.
pub record Outside : Type 0 where
  pub at_open : Text → ℕ
  pub at_release : Text → ℕ
  pub send : Text → SendResult × Option TwilioError

abbrev pub note : SendRow → Outbox → Outbox
note row w = record w { audit = w.audit ++ send_row row ∷ [] }

-- The set and the rows that one of its operations leaves.
abbrev pub updated : PendingSet → List Row → Outbox → Outbox
updated ps rows w = record w { pending = ps; audit = w.audit ++ pending_rows rows }

-- After `SendVerificationSMS`.
unfoldable pub send_answered : ℕ → Text → Text → SendResult × Option TwilioError → Outbox → Outbox
send_answered now request_id phone (result, none) w =
    note (sms_sent request_id (mask_phone phone) result) w
send_answered now request_id phone (result, some failure) w =
    let (ps, rows) = release now phone w.pending in
    note (twilio_send_failed request_id (mask_phone phone) failure) (updated ps rows w)

module _ (ch : Channel) (out : Outside) (request_id : Text) where
  -- After the phone has been claimed.
  unfoldable pub send_claimed : Text → Outbox → Outbox
  unfolding send_answered
  send_claimed phone w =
      if ch.dry_run
      then note (sms_sent_dry_run request_id (mask_phone phone)) w
      else send_answered (out.at_release phone) request_id phone (out.send phone)
          (record w { sends = w.sends ++ phone ∷ [] })

  -- After `OpenPending`.
  unfoldable pub send_opened : Text → PendingSet × Bool × List Row → Outbox → Outbox
  unfolding send_claimed
  send_opened phone (ps, claimed, rows) w =
      if claimed
      then send_claimed phone (updated ps rows w)
      else note (routing_blocked_same_phone request_id (mask_phone phone)) (updated ps rows w)

  -- One turn of the loop.
  unfoldable pub send_one : Text → Outbox → Outbox
  unfolding send_opened
  send_one phone w =
      if not (is_allowed_country phone ch.allowed)
      then note (unsupported_region request_id (mask_phone phone)) w
      else send_opened phone (open_pending (out.at_open phone) phone request_id w.pending) w

  unfoldable pub send_all : List Text → Outbox → Outbox
  unfolding send_one
  send_all [] w = w
  send_all (phone ∷ phones) w = send_all phones (send_one phone w)

-- `handlePending`
unfoldable pub handle_pending : Channel → Outside → PendingRequest → Outbox → Outbox
unfolding send_all
handle_pending ch out p w =
    let recipients = lookup_recipients ch.policy p.requester in
    if is_empty recipients
    then note (sms_routing_empty p.request_id p.requester) w
    else send_all ch out p.request_id recipients w
