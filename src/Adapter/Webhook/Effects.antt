-- ===== src/Adapter/Webhook/Effects.antt =====
-- internal/twilioadapter/webhook_handler.go: what one reply may do.
use request_sudo.Base.{
  ◌≡◌, refl, Bool, true, false, not, List, [], Option, none, some, Text, codes, text_eq, lookup,
  if◌then◌else◌, Bool-cases, inl, inr,
}
use request_sudo.Protocol.{WireRequest, Response}
use request_sudo.Adapter.Pending.{PendingSet, Row, resolve, release}
use request_sudo.Adapter.Pending.Views.{
  IsBound, KeepsLive, Resolved, missed, bound, resolve-Resolved, release-lookup,
}
use request_sudo.Adapter.Replies.{ReplyIntent, unknown, approve, deny, parse_reply_intent}
use request_sudo.Adapter.Signature.{Form, form_get, validate_twilio_signature}
use request_sudo.Adapter.Verify.{CheckResult, TwilioError}
use request_sudo.Adapter.Webhook.{
  Settings, Inbound, Clock, World, approval_message, denial_message, is_verified, approval_called,
  denial_called, code_checked, act, sender_resolved, is_unknown, handle_reply, handle_form,
  handle_inbound_reply, resolved, method_not_allowed,
}

-- The request is a POST with a form and its signature, from this sender, and its body says this.
pub record IsAuthentic (sign : Text → Text → Text) (deps : Settings) (r : Inbound) (from : Text)
    (intent : ReplyIntent) (code : Text) : Type 0 where
  pub form : Form
  pub is_post : r.is_post ≡ true
  pub has_form : r.form ≡ some form
  pub is_signed :
      validate_twilio_signature sign deps.auth_token deps.public_url form r.signature ≡ true
  pub sender : form_get form (codes "From") ≡ from
  pub says : parse_reply_intent (form_get form (codes "Body")) ≡ (intent, code)

-- The message to the broker that a reply is good for: a denial needs a reply that says so, and an
-- approval also Twilio's answer that the code is the sender's.
pub data Orders (check : Text → Text → CheckResult × Option TwilioError) (sign : Text → Text → Text)
    (deps : Settings) (r : Inbound) (from request_id : Text) : WireRequest → Type 0 where
  approves :
      (code : Text)
      → IsAuthentic sign deps r from approve code
      → is_verified (check from code) ≡ true
      → Orders check sign deps r from request_id (approval_message deps request_id)
  denies :
      (code : Text)
      → IsAuthentic sign deps r from deny code
      → Orders check sign deps r from request_id (denial_message deps request_id)

module _ {B : Type 0} (call : WireRequest → B → B × Option Response)
    (check : Text → Text → CheckResult × Option TwilioError) (deps : Settings) (clock : Clock)
    (sign : Text → Text → Text) (r : Inbound) (w : World B) where
  -- The broker was asked once, as the reply ordered, for the request that the sender's phone waits for.
  pub record IsAsked (from request_id : Text) (answer : Option Response) (broker : B) : Type 0 where
    pub message : WireRequest
    pub ordered : Orders check sign deps r from request_id message
    pub is_bound : IsBound clock.at_resolve from request_id w.pending
    pub is_called : call message w.broker ≡ (broker, answer)

  -- What a reply leaves of the broker and the pending set.
  pub data Leaves : PendingSet → B → Type 0 where
    ignored : (ps : PendingSet) → KeepsLive clock.at_resolve w.pending ps → Leaves ps w.broker
    unanswered :
        (from request_id : Text) (b : B) → IsAsked from request_id none b → Leaves w.pending b
    consumed :
        (from request_id : Text) (resp : Response) (ps : PendingSet) (b : B)
        → IsAsked from request_id (some resp) b
        → ((q : Text)
            → lookup q ps.items ≡ (if text_eq from q then none else lookup q w.pending.items))
        → Leaves ps b

  abbrev LeavesOf : World B → Type 0
  LeavesOf w' = Leaves w'.pending w'.broker

  untouched : Leaves w.pending w.broker
  untouched = ignored w.pending (λ phone entry there live. there)

  released :
      (from request_id : Text) (resp : Response) (b : B)
      → IsAsked from request_id (some resp) b
      → Leaves (release clock.at_release from w.pending).0 b
  released from request_id resp b asked =
      consumed from request_id resp _ b asked
        (λ q. release-lookup clock.at_release from q w.pending)

  approval_called-Leaves :
      (from request_id : Text) (result : CheckResult) (q : B × Option Response)
      → IsAsked from request_id q.1 q.0
      → LeavesOf
          (approval_called call check deps clock request_id from result (resolved w.pending [] w) q)
  unfolding approval_called
  approval_called-Leaves from request_id result (b, none) asked = unanswered from request_id b asked
  approval_called-Leaves from request_id result (b, some resp) asked =
      released from request_id resp b asked

  denial_called-Leaves :
      (from request_id : Text) (q : B × Option Response)
      → IsAsked from request_id q.1 q.0
      → LeavesOf (denial_called call check deps clock request_id from (resolved w.pending [] w) q)
  unfolding denial_called
  denial_called-Leaves from request_id (b, none) asked = unanswered from request_id b asked
  denial_called-Leaves from request_id (b, some resp) asked = released from request_id resp b asked

  act-Leaves :
      (intent : ReplyIntent) (code from request_id : Text)
      → IsAuthentic sign deps r from intent code
      → IsBound clock.at_resolve from request_id w.pending
      → LeavesOf (act call check deps clock intent code request_id from (resolved w.pending [] w)).0
  unfolding act code_checked
  act-Leaves unknown code from request_id good here = untouched
  act-Leaves approve code from request_id good here =
      elim (Bool-cases (is_verified (check from code))) [
        | inl holds ↦ rw holds (
            approval_called-Leaves from request_id (check from code).0
              (call (approval_message deps request_id) w.broker)
              (record {
                message = approval_message deps request_id;
                ordered = approves code good holds;
                is_bound = here;
                is_called = refl;
              }))
        | inr fails ↦ rw fails untouched
      ]
  act-Leaves deny code from request_id good here =
      denial_called-Leaves from request_id (call (denial_message deps request_id) w.broker)
        (record {
          message = denial_message deps request_id;
          ordered = denies code good;
          is_bound = here;
          is_called = refl;
        })

  sender_resolved-Leaves :
      (said : ReplyIntent × Text) (from body : Text) (q : PendingSet × Option Text × List Row)
      → IsAuthentic sign deps r from said.0 said.1
      → Resolved clock.at_resolve from w.pending q
      → LeavesOf (sender_resolved call check deps clock said from body w q).0
  unfolding sender_resolved
  sender_resolved-Leaves said from body q good (missed ps rows kept) = ignored ps kept
  sender_resolved-Leaves said from body q good (bound request_id here) =
      act-Leaves said.0 said.1 from request_id good here

  handle_reply-Leaves :
      (said : ReplyIntent × Text) (from body : Text)
      → IsAuthentic sign deps r from said.0 said.1
      → LeavesOf (handle_reply call check deps clock said from body w).0
  unfolding handle_reply
  handle_reply-Leaves said from body good = elim (Bool-cases (is_unknown said.0)) [
    | inl holds ↦ rw holds untouched
    | inr fails ↦ rw fails (
        sender_resolved-Leaves said from body (resolve clock.at_resolve from w.pending) good
          (resolve-Resolved clock.at_resolve from w.pending))
  ]

  handle_form-Leaves :
      (form : Option Form)
      → r.is_post ≡ true
      → r.form ≡ form
      → LeavesOf (handle_form call check deps clock sign form r.signature w).0
  unfolding handle_form
  handle_form-Leaves none post h = untouched
  handle_form-Leaves (some form) post h =
      elim (Bool-cases
        (validate_twilio_signature sign deps.auth_token deps.public_url form r.signature)) [
          | inl holds ↦ rw holds (
              handle_reply-Leaves (parse_reply_intent (form_get form (codes "Body")))
                (form_get form (codes "From")) (form_get form (codes "Body"))
                (record {
                  form = form;
                  is_post = post;
                  has_form = h;
                  is_signed = holds;
                  sender = refl;
                  says = refl;
                }))
          | inr fails ↦ rw fails untouched
        ]

  -- A reply asks the broker at most once, and only if it is a POST that Twilio signed, from a phone
  -- that waits for that very request, whose time is not over, and whose body is a denial, or an
  -- approval with a code that Twilio accepts for that phone. If the broker answers, the entry of that
  -- phone is taken out and no other; if no answer comes, all entries stay; and if it is not asked,
  -- every entry stays whose time is not over, and the broker is as it was.
  pub handle_inbound_reply-Leaves : LeavesOf (handle_inbound_reply call check deps clock sign r w).0
  unfolding handle_inbound_reply
  handle_inbound_reply-Leaves = by_method r.is_post refl
    where
      by_method :
          (b : Bool)
          → r.is_post ≡ b
          → LeavesOf
              (if not b
                then (w, method_not_allowed)
                else handle_form call check deps clock sign r.form r.signature w).0
      by_method true post = handle_form-Leaves r.form post refl
      by_method false other = untouched
