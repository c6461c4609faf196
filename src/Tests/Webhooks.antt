-- ===== src/Tests/Webhooks.antt =====
-- The theorems about replies by text message at concrete replies.
use request_sudo.Base.{
  ◌≡◌, refl, Bool, true, false, [], ◌∷◌, ◌++◌, Option, none, some, Text, codes, lookup, ◌⊎◌, arith,
  itoa, text_eq, text_le, sort_texts, keys,
}
use request_sudo.Core.{Actor}
use request_sudo.Events.{Event, request_approved}
use request_sudo.Events.Log.{append}
use request_sudo.Projection.{get}
use request_sudo.Broker.State.{Service}
use request_sudo.Broker.Requests.{new_event, validate_approver}
use request_sudo.Broker.Effects.{Moves}
use request_sudo.Socket.{has_id, review_allowed}
use request_sudo.Socket.Client.{delivered, not_decoded}
use request_sudo.Adapter.Pending.{PendingSet, is_live}
use request_sudo.Adapter.Pending.Views.{IsBound}
use request_sudo.Adapter.Replies.{approve, unknown, parse_reply_intent}
use request_sudo.Adapter.Replies.Grammar.{Says}
use request_sudo.Adapter.Replies.Parses.{parse_reply_intent-Says}
use request_sudo.Adapter.Signature.{Form, form_get, validate_twilio_signature}
use request_sudo.Adapter.Verify.{
  CheckResult, SendResult, TwilioError, no_fields, answered, check_verification,
}
use request_sudo.Adapter.Webhook.{
  Settings, Inbound, Clock, World, handle_inbound_reply, is_verified, empty_twiml, broker_request,
}
use request_sudo.Adapter.Webhook.Effects.{IsAuthentic, Leaves, handle_inbound_reply-Leaves}
use request_sudo.Adapter.Webhook.EndToEnd.{call, MayWrite, inbound_reply-Moves}
use request_sudo.Adapter.Webhook.Approves.{run, IsApproved, inbound_reply_approves}
use request_sudo.Tests.Sample.{sample, sample-RoundTrips, approval}
use request_sudo.Tests.Scenario.{rid, bob, waiting_snap, holding}
use request_sudo.Tests.Logs.{empty_log, works}
use request_sudo.Tests.Brokers.{service}
use request_sudo.Tests.Succeeds.{sealed}
use request_sudo.Tests.Sockets.{server, call_env}
use request_sudo.Tests.Adapters.{phone, idle}

abbrev body : Text
body = codes " Yes 123456"

parse_reply_intent-Says_example :
    (Says body approve (codes "123456") → parse_reply_intent body ≡ (approve, codes "123456"))
    × (parse_reply_intent body ≡ (approve, codes "123456")
        → Says body approve (codes "123456") ⊎ ((approve ≡ unknown) × (codes "123456" ≡ [])))
parse_reply_intent-Says_example = parse_reply_intent-Says body approve (codes "123456")

abbrev sign : Text → Text → Text
sign key message = key ++ message

abbrev deps : Settings
deps = record { auth_token = codes "k"; public_url = codes "u"; approver_id = codes "sms" }

abbrev form : Form
form = (codes "From", phone ∷ []) ∷ (codes "Body", body ∷ []) ∷ []

abbrev reply : Inbound
reply = record {
  is_post = true;
  form = some form;
  signature = codes "kuBody Yes 123456From+15550001111";
}

abbrev decode : Text → SendResult × Bool
decode text = (record no_fields { status = text; sid = codes "s" }, false)

-- Twilio, which accepts one code.
abbrev check : Text → Text → CheckResult × Option TwilioError
check = check_verification (λ to code. answered 200 (codes "approved")) decode

abbrev clock : Clock
clock = record { at_resolve = 12; at_release = 13 }

abbrev waiting : PendingSet
waiting = record idle { items = (phone, record { request_id = rid; opened_at = 11 }) ∷ [] }

abbrev world : World Service
world = record { pending = waiting; broker = service (holding waiting_snap); audit = [] }

handle_inbound_reply-Leaves_example :
    Leaves
      (call sample server not_decoded call_env (some bob) check deps clock sign reply world)
      check
      deps
      clock
      sign
      reply
      world
      (handle_inbound_reply
        (call sample server not_decoded call_env (some bob) check deps clock sign reply world)
        check
        deps
        clock
        sign
        reply
        world).0.pending
      (handle_inbound_reply
        (call sample server not_decoded call_env (some bob) check deps clock sign reply world)
        check
        deps
        clock
        sign
        reply
        world).0.broker
handle_inbound_reply-Leaves_example =
    handle_inbound_reply-Leaves
      (call sample server not_decoded call_env (some bob) check deps clock sign reply world) check
      deps clock sign reply world

inbound_reply-Moves_example :
    Moves sample
      (MayWrite sample server delivered call_env (some bob) check deps clock sign reply world)
      (holding waiting_snap)
      (handle_inbound_reply
        (call sample server delivered call_env (some bob) check deps clock sign reply world)
        check
        deps
        clock
        sign
        reply
        world).0.broker.projection
inbound_reply-Moves_example =
    inbound_reply-Moves sample server delivered call_env (some bob) check deps clock sign reply
      world

authentic : IsAuthentic sign deps reply phone approve (codes "123456")
unfolding text_eq sort_texts keys text_le lookup form_get validate_twilio_signature
    parse_reply_intent
authentic = record {
  form = form;
  is_post = refl;
  has_form = refl;
  is_signed = refl;
  sender = refl;
  says = refl;
}

bound : IsBound 12 phone rid waiting
unfolding text_eq lookup is_live
bound = record {
  entry = record { request_id = rid; opened_at = 11 };
  there = refl;
  live = refl;
  names = refl;
}

abbrev adapter : Actor
adapter = record { kind = codes "twilio"; id = codes "sms" }

abbrev text : Text
text = approval.enc (record { approver = adapter; approval_code = [] })

abbrev event : Event
event = new_event rid adapter request_approved text

inbound_reply_approves_example :
    IsApproved sample server call_env bob check deps clock sign reply world rid
      (run sample server call_env bob check deps clock sign reply world).0.broker
    × (lookup phone
          (run sample server call_env bob check deps clock sign reply world).0.pending.items
        ≡ none)
    × ((run sample server call_env bob check deps clock sign reply world).1 ≡ empty_twiml)
unfolding get lookup text_eq validate_approver itoa check_verification is_verified has_id
    review_allowed append broker_request
inbound_reply_approves_example =
    inbound_reply_approves sample server call_env bob check deps clock sign reply world
      sample-RoundTrips phone rid (codes "123456") waiting_snap text
      (append sample works event empty_log).0 (sealed event) authentic bound refl refl refl refl
      (omega arith) refl refl refl
