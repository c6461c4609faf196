-- ===== src/Adapter/Webhook.antt =====
-- internal/twilioadapter/webhook_handler.go: the handler of replies by text message. The broker's
-- state and the call on its review socket are parameters, and so is Twilio's check of a code.
pub mod Effects
pub mod EndToEnd
pub mod Approves
use request_sudo.Base.{
  ℕ, Bool, true, false, not, ◌||◌, List, [], ◌∷◌, ◌++◌, Option, none, some, Text, codes, length,
  take, is_empty, ltb, if◌then◌else◌,
}
use request_sudo.Core.{Actor}
use request_sudo.Protocol.{Action, review_approve, review_deny, WireRequest, Response}
use request_sudo.Adapter.Phones.{mask_phone}
use request_sudo.Adapter.Pending.{PendingSet, Row, resolve, release}
use request_sudo.Adapter.Replies.{ReplyIntent, unknown, approve, deny, parse_reply_intent}
use request_sudo.Adapter.Signature.{Form, form_get, validate_twilio_signature}
use request_sudo.Adapter.Verify.{SendResult, CheckResult, TwilioError}
use request_sudo.Adapter.Audit.{
  AuditRow, UnboundRow, ReplyRow, unbound_row, reply_row, verify_unbound_reply,
  verify_check_rejected, sms_approval_consumed, sms_denial_consumed, pending_rows,
}

-- The settings of `InboundReplyDeps`.
pub record Settings : Type 0 where
  pub auth_token : Text
  pub public_url : Text
  pub approver_id : Text

-- An HTTP request: `form` is none where `ParseForm` fails.
pub record Inbound : Type 0 where
  pub is_post : Bool
  pub form : Option Form
  pub signature : Text

-- When the two calls of the pending set read the clock.
pub record Clock : Type 0 where
  pub at_resolve : ℕ
  pub at_release : ℕ

-- The answers. `no_answer` writes nothing.
pub data HttpAnswer : Type 0 where
  method_not_allowed bad_form bad_signature empty_twiml no_answer : HttpAnswer

-- What a reply can change, with the rows of the audit file.
pub record World (B : Type 0) : Type 0 where
  pub pending : PendingSet
  pub broker : B
  pub audit : List AuditRow

-- The message of `brokerSocketCaller.Call`.
unfoldable pub broker_request : Action → Text → Text → Text → Text → WireRequest
broker_request action request_id approver_kind approver_id reason = record {
  action = action;
  argv = [];
  reason = reason;
  mode = [];
  request_id = request_id;
  approver = record { kind = approver_kind; id = approver_id };
  approval_code = [];
  cwd = [];
}

abbrev pub approval_message : Settings → Text → WireRequest
approval_message deps request_id =
    broker_request review_approve request_id (codes "twilio") deps.approver_id
      (codes "approved via SMS")

abbrev pub denial_message : Settings → Text → WireRequest
denial_message deps request_id =
    broker_request review_deny request_id (codes "twilio") deps.approver_id (codes "sms_denial")

abbrev pub unless_empty : Text → Option Text
unless_empty text = if is_empty text then none else some text

-- `emitUnbound`
unfoldable pub emit_unbound : Text → Text → Text → Text → UnboundRow
emit_unbound request_id from reason body =
    verify_unbound_reply (unless_empty request_id) (mask_phone from) reason
      (if ltb 40 (length body) then take 40 body else body)

module _ {B : Type 0} where
  -- `audit.Write(row)`
  abbrev pub write : List AuditRow → World B → World B
  write rows w = record w { audit = w.audit ++ rows }

  -- After `deps.Pending.Resolve`.
  abbrev pub resolved : PendingSet → List Row → World B → World B
  resolved ps rows w = record w { pending = ps; audit = w.audit ++ pending_rows rows }

  -- `deps.Pending.Release(from)`, and the row of the reply.
  unfoldable pub consume : ℕ → Text → ReplyRow → World B → World B
  consume now from row w =
      let (ps, rows) = release now from w.pending in
      record w { pending = ps; audit = w.audit ++ pending_rows rows ++ reply_row row ∷ [] }

-- The row of a code that is not accepted.
unfoldable pub rejection : Text → Text → CheckResult → Option TwilioError → ReplyRow
rejection request_id from result failure =
    verify_check_rejected request_id (mask_phone from) result.fields.status failure
      (unless_empty result.fields.sid)

-- `err == nil && result.Approved`
unfoldable pub is_verified : CheckResult × Option TwilioError → Bool
is_verified (result, none) = result.approved
is_verified (result, some failure) = false

-- `intent == ReplyIntentUnknown`
abbrev pub is_unknown : ReplyIntent → Bool
is_unknown unknown = true
is_unknown _ = false

module _ {B : Type 0} (call : WireRequest → B → B × Option Response)
    (check : Text → Text → CheckResult × Option TwilioError) (deps : Settings) (clock : Clock) where
  -- After `deps.Broker.Call` of an approval; `none` is an error.
  unfoldable pub approval_called :
      Text → Text → CheckResult → World B → B × Option Response → World B
  unfolding consume
  approval_called request_id from result w (b, none) = record w { broker = b }
  approval_called request_id from result w (b, some resp) =
      consume clock.at_release from
        (sms_approval_consumed request_id (mask_phone from) result.fields.sid resp.status
          resp.message)
        (record w { broker = b })

  unfoldable pub denial_called : Text → Text → World B → B × Option Response → World B
  unfolding consume
  denial_called request_id from w (b, none) = record w { broker = b }
  denial_called request_id from w (b, some resp) =
      consume clock.at_release from
        (sms_denial_consumed request_id (mask_phone from) resp.status resp.message)
        (record w { broker = b })

  -- After `deps.Twilio.CheckVerification`.
  unfoldable pub code_checked : Text → Text → World B → CheckResult × Option TwilioError → World B
  unfolding rejection is_verified approval_called
  code_checked request_id from w checked =
      if not (is_verified checked)
      then write (reply_row (rejection request_id from checked.0 checked.1) ∷ []) w
      else approval_called request_id from checked.0 w
          (call (approval_message deps request_id) w.broker)

  -- The `switch` on the intent.
  unfoldable pub act : ReplyIntent → Text → Text → Text → World B → World B × HttpAnswer
  unfolding code_checked denial_called
  act unknown code request_id from w = (w, no_answer)
  act approve code request_id from w =
      (code_checked request_id from w (check from code), empty_twiml)
  act deny code request_id from w = (
    denial_called request_id from w (call (denial_message deps request_id) w.broker),
    empty_twiml,
  )

  unfoldable pub sender_resolved :
      ReplyIntent × Text
      → Text
      → Text
      → World B
      → PendingSet × Option Text × List Row
      → World B × HttpAnswer
  unfolding act emit_unbound
  sender_resolved said from body w (ps, none, rows) = (
    write (unbound_row (emit_unbound [] from (codes "no pending request for sender") body) ∷ [])
        (resolved ps rows w),
    empty_twiml,
  )
  sender_resolved said from body w (ps, some request_id, rows) =
      act said.0 said.1 request_id from (resolved ps rows w)

  -- After the signature was found valid.
  unfoldable pub handle_reply : ReplyIntent × Text → Text → Text → World B → World B × HttpAnswer
  unfolding sender_resolved emit_unbound
  handle_reply said from body w =
      if is_unknown said.0
      then (
        write (unbound_row (emit_unbound [] from (codes "unparseable body") body) ∷ []) w,
        empty_twiml,
      )
      else sender_resolved said from body w (resolve clock.at_resolve from w.pending)

  module _ (sign : Text → Text → Text) where
    unfoldable pub handle_form : Option Form → Text → World B → World B × HttpAnswer
    unfolding handle_reply
    handle_form none signature w = (w, bad_form)
    handle_form (some form) signature w =
        if not (validate_twilio_signature sign deps.auth_token deps.public_url form signature)
        then (w, bad_signature)
        else handle_reply (parse_reply_intent (form_get form (codes "Body")))
            (form_get form (codes "From")) (form_get form (codes "Body")) w

    -- The handler that `HandleInboundReply` makes.
    unfoldable pub handle_inbound_reply : Inbound → World B → World B × HttpAnswer
    unfolding handle_form
    handle_inbound_reply r w =
        if not r.is_post then (w, method_not_allowed) else handle_form r.form r.signature w
