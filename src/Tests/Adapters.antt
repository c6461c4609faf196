-- ===== src/Tests/Adapters.antt =====
-- The theorems about the adapter at concrete inputs.
use request_sudo.Base.{
  ℕ, ◌+◌, ◌-◌, ◌==◌, if◌then◌else◌, text_eq, Option, none, insert, delete, ◌≡◌, ◌≢◌, refl, true,
  false, ◌&&◌, List, [], ◌∷◌, some, Text, codes, lookup, contains, arith,
}
use request_sudo.Base.Lines.{has_prefix}
use request_sudo.Adapter.Phones.{is_allowed_country, ApproversPolicy}
use request_sudo.Adapter.Phones.Country.{some_prefix, is_allowed_country-some_prefix}
use request_sudo.Adapter.Pending.{Entry, PendingSet, open_pending, resolve, expire_due, is_live}
use request_sudo.Adapter.Pending.Claims.{claim_is_exclusive, expire_due-live}
use request_sudo.Adapter.Pending.{Row, RowType, row, opened, released, expired, other, release}
use request_sudo.Adapter.Pending.Replay.{opening, releasing, run_calls, Call}
use request_sudo.Adapter.Pending.AuditFile.{
  AuditLine, AuditDecoder, row_type, audit_line, whole, replay_file,
}
use request_sudo.Adapter.Pending.Restart.{
  AuditEntry, mine, foreign, AllLines, audit_file, restart_restores,
}

abbrev pub phone : Text
phone = codes "+15550001111"

abbrev pub idle : PendingSet
idle = record { ttl = 10; items = [] }

is_allowed_country-some_prefix_example :
    is_allowed_country phone (codes "+1" ∷ codes "+44" ∷ [])
    ≡ (has_prefix phone (codes "+") && some_prefix phone (codes "+1" ∷ codes "+44" ∷ []))
is_allowed_country-some_prefix_example =
    is_allowed_country-some_prefix phone (codes "+1" ∷ codes "+44" ∷ [])

abbrev pub policy : ApproversPolicy
policy = record {
  approver_sets = (codes "ops", codes "ann" ∷ codes "cy" ∷ []) ∷ [];
  phones = (codes "ann", phone ∷ phone ∷ []) ∷ (codes "cy", phone ∷ []) ∷ [];
  routing = (codes "bob", codes "ops") ∷ [];
}

abbrev claimed : PendingSet
claimed = (open_pending 3 phone (codes "a") idle).0

claim_is_exclusive_example :
    (open_pending 9 phone (codes "b") claimed ≡ (claimed, false, []))
    × (resolve 9 phone claimed ≡ (claimed, some (codes "a"), []))
    × ((q : Text) → phone ≢ q → lookup q claimed.items ≡ lookup q [])
unfolding open_pending lookup
claim_is_exclusive_example =
    claim_is_exclusive 3 9 phone (codes "a") (codes "b") idle refl (omega arith)

expire_due-live_example :
    ((p : Text)
      → contains (phone ∷ []) p ≡ true
      → (entry : Entry) → lookup p (expire_due 20 (phone ∷ []) claimed).0.items ≡ some entry
      → is_live (expire_due 20 (phone ∷ []) claimed).0.ttl 20 entry ≡ true)
    × ((q : Text) (entry : Entry)
        → lookup q claimed.items ≡ some entry
        → is_live claimed.ttl 20 entry ≡ true
        → lookup q (expire_due 20 (phone ∷ []) claimed).0.items ≡ some entry)
    × ((q : Text) (entry : Entry)
        → lookup q (expire_due 20 (phone ∷ []) claimed).0.items ≡ some entry
        → lookup q claimed.items ≡ some entry)
    × ((expire_due 20 (phone ∷ []) claimed).0.ttl ≡ claimed.ttl)
expire_due-live_example = expire_due-live 20 (phone ∷ []) claimed

abbrev calls : List Call
calls = opening 3 phone (codes "a") ∷ opening 30 phone (codes "b") ∷ releasing 31 phone ∷ []

abbrev fresh : PendingSet
fresh = record { ttl = 10; items = [] }

-- A decoder of short lines: a letter for the type, a byte for the time, and the request id.
abbrev type_of : ℕ → Text
type_of t =
    if t == 79
    then codes "verify_pending_opened"
    else if t == 82
    then codes "verify_pending_released"
    else if t == 69
    then codes "verify_pending_expired"
    else codes "sms_sent"

abbrev letter : RowType → ℕ
letter opened = 79
letter released = 82
letter expired = 69
letter (other type) = 0

abbrev unmarshal_row : Text → Option AuditLine
unmarshal_row (t ∷ ts ∷ id) =
    some (record { type = type_of t; request_id = id; recipient_phone = phone; wall_ts = ts ∷ [] })
unmarshal_row _ = none

abbrev parse_time : Text → Option ℕ
parse_time (ts ∷ []) = some (ts - 40)
parse_time _ = none

abbrev decoder : AuditDecoder
decoder = record { unmarshal_row = unmarshal_row; parse_time = parse_time }

abbrev encode : Row → Text
encode r = letter r.type ∷ (40 + r.wall_ts) ∷ r.request_id

abbrev file_lines : List AuditEntry
file_lines =
    mine (row opened (codes "a") phone 3)
    ∷ foreign (codes "S!b")
    ∷ mine (row expired (codes "a") phone 30)
    ∷ mine (row opened (codes "b") phone 30)
    ∷ foreign []
    ∷ mine (row released (codes "b") phone 31)
    ∷ []

lines_hold : AllLines decoder encode file_lines
unfolding row row_type text_eq audit_line
lines_hold = (
  record {
    one_line = (refl, (refl, (refl, tt)));
    not_empty = refl;
    line = _;
    decodes = refl;
    type = refl;
    request_id = refl;
    phone = refl;
    time = refl;
  },
  (
    (refl, (refl, (refl, tt))),
    refl,
    (
      record {
        one_line = (refl, (refl, (refl, tt)));
        not_empty = refl;
        line = _;
        decodes = refl;
        type = refl;
        request_id = refl;
        phone = refl;
        time = refl;
      },
      (
        record {
          one_line = (refl, (refl, (refl, tt)));
          not_empty = refl;
          line = _;
          decodes = refl;
          type = refl;
          request_id = refl;
          phone = refl;
          time = refl;
        },
        (
          tt,
          refl,
          (
            record {
              one_line = (refl, (refl, (refl, tt)));
              not_empty = refl;
              line = _;
              decodes = refl;
              type = refl;
              request_id = refl;
              phone = refl;
              time = refl;
            },
            tt,
          ),
        ),
      ),
    ),
  ),
)

restart_restores_example :
    (replay_file decoder (whole (audit_file decoder encode file_lines)) fresh).0.items
    ≡ (run_calls calls fresh).0.items
unfolding run_calls open_pending release is_live lookup insert delete text_eq
restart_restores_example =
    restart_restores decoder encode 10 calls file_lines
      (omega arith, refl, refl, (omega arith, refl, refl, (omega arith, tt))) refl lines_hold
