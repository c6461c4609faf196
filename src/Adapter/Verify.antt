-- ===== src/Adapter/Verify.antt =====
-- internal/twilioadapter/twilio.go and verify_check.go: the two calls of Twilio's Verify service.
-- What the HTTP client answers and what `json.Unmarshal` reads are parameters.
use request_sudo.Base.{
  ℕ, Bool, false, ◌||◌, Text, codes, text_eq, Option, none, some, [], ltb, leb, ◌==◌, if◌then◌else◌,
}

-- What comes of posting a form: the request is not built, is not answered, or is answered with a
-- status code and a body.
pub data Posted : Type 0 where
  not_built not_sent : Text → Posted
  answered : ℕ → Text → Posted

-- `VerifySendResult`
pub record SendResult : Type 0 where
  pub sid : Text
  pub status : Text
  pub to : Text
  pub service_sid : Text
  pub date_created : Text

-- `VerifyCheckResult`
pub record CheckResult : Type 0 where
  pub fields : SendResult
  pub approved : Bool

-- The errors of the two calls.
pub data TwilioError : Type 0 where
  no_pending_verification : TwilioError
  request_not_built request_failed : Text → TwilioError
  bad_status : ℕ → Text → TwilioError
  undecoded : Text → TwilioError

abbrev pub no_fields : SendResult
no_fields = record { sid = []; status = []; to = []; service_sid = []; date_created = [] }

abbrev pub no_result : CheckResult
no_result = record { fields = no_fields; approved = false }

-- What `json.Unmarshal` leaves in the struct, and its error.
abbrev pub Decoder : Type 0
Decoder = Text → SendResult × Bool

unfoldable pub check_decoded : Text → SendResult × Bool → CheckResult × Option TwilioError
check_decoded body (fields, failed) =
    if failed
    then (record { fields = fields; approved = false }, some (undecoded body))
    else (record { fields = fields; approved = text_eq fields.status (codes "approved") }, none)

unfoldable pub check_posted : Decoder → Posted → CheckResult × Option TwilioError
unfolding check_decoded
check_posted decode (not_built text) = (no_result, some (request_not_built text))
check_posted decode (not_sent text) = (no_result, some (request_failed text))
check_posted decode (answered status body) =
    if status == 404
    then (no_result, some no_pending_verification)
    else if ltb status 200 || leb 300 status
    then (no_result, some (bad_status status body))
    else check_decoded body (decode body)

-- `CheckVerification`, where `post` posts the forms `To` and `Code` to the endpoint.
unfoldable pub check_verification :
    (Text → Text → Posted) → Decoder → Text → Text → CheckResult × Option TwilioError
unfolding check_posted
check_verification post decode to code = check_posted decode (post to code)

unfoldable pub send_decoded : Text → SendResult × Bool → SendResult × Option TwilioError
send_decoded body (fields, failed) = (fields, if failed then some (undecoded body) else none)

unfoldable pub send_posted : Decoder → Posted → SendResult × Option TwilioError
unfolding send_decoded
send_posted decode (not_built text) = (no_fields, some (request_not_built text))
send_posted decode (not_sent text) = (no_fields, some (request_failed text))
send_posted decode (answered status body) =
    if ltb status 200 || leb 300 status
    then (no_fields, some (bad_status status body))
    else send_decoded body (decode body)

-- `SendVerificationSMS`, where `post` posts the forms `To` and `Channel` to the endpoint.
unfoldable pub send_verification_sms :
    (Text → Posted) → Decoder → Text → SendResult × Option TwilioError
unfolding send_posted
send_verification_sms post decode to = send_posted decode (post to)
