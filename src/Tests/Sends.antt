-- ===== src/Tests/Sends.antt =====
-- The theorems about sending text messages at concrete recipients.
use request_sudo.Base.{
  ◌≡◌, refl, false, [], ◌∷◌, some, codes, text_eq, lookup, contains, inl, arith,
}
use request_sudo.Base.Trim.{trim_space}
use request_sudo.Base.Lines.{has_prefix}
use request_sudo.Adapter.Phones.{lookup_recipients, is_allowed_country}
use request_sudo.Adapter.Pending.{resolve, open_pending}
use request_sudo.Adapter.Verify.{no_fields, answered, send_verification_sms}
use request_sudo.Adapter.Send.{PendingRequest, Outbox, Channel, Outside, handle_pending}
use request_sudo.Adapter.Send.Slots.{fate_of}
use request_sudo.Adapter.Send.Loop.{Served, handle_pending-Served, sent_phone_resolves}
use request_sudo.Tests.Adapters.{phone, idle, policy}

abbrev channel : Channel
channel = record { policy = policy; allowed = codes "+1" ∷ []; dry_run = false }

abbrev outside : Outside
outside = record {
  at_open = λ q. 11;
  at_release = λ q. 12;
  send = send_verification_sms (λ to. answered 201 []) (λ body. (no_fields, false));
}

abbrev asked : PendingRequest
asked = record {
  request_id = codes "r";
  requester = codes "bob";
  argv = codes "ls" ∷ [];
  reason = [];
  created_at = 10;
}

abbrev outbox : Outbox
outbox = record { pending = idle; audit = []; sends = [] }

handle_pending-Served_example :
    Served channel outside
      (codes "r")
      (lookup_recipients policy (codes "bob"))
      outbox
      (handle_pending channel outside asked outbox)
handle_pending-Served_example = handle_pending-Served channel outside asked outbox

-- The message is sent once, though the phone is listed three times.
one_message : (handle_pending channel outside asked outbox).sends ≡ phone ∷ []
unfolding handle_pending lookup_recipients lookup text_eq trim_space contains is_allowed_country
    has_prefix send_verification_sms open_pending
one_message = refl

sent_phone_resolves_example :
    resolve 20 phone (handle_pending channel outside asked outbox).pending
    ≡ ((handle_pending channel outside asked outbox).pending, some (codes "r"), [])
unfolding lookup_recipients lookup text_eq trim_space contains is_allowed_country has_prefix
    send_verification_sms fate_of
sent_phone_resolves_example =
    sent_phone_resolves channel outside asked outbox phone 20 refl (inl refl) (omega arith)
