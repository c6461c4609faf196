-- ===== src/Adapter/Signature.antt =====
-- internal/twilioadapter/webhook.go: the signature of a webhook call. The base64 form of HMAC-SHA1 is
-- a parameter, of the key and the message.
use request_sudo.Base.{
  Bool, false, ◌||◌, List, [], ◌∷◌, ◌++◌, Option, none, some, Text, text_eq, Map, lookup, keys,
  sort_texts, is_empty, if◌then◌else◌,
}

-- `url.Values`
abbrev pub Form : Type 0
Form = Map (List Text)

-- The first value of a key, and the empty text where there is none.
unfoldable pub first_value : Option (List Text) → Text
first_value none = []
first_value (some []) = []
first_value (some (value ∷ values)) = value

-- `form.Get(key)`
unfoldable pub form_get : Form → Text → Text
unfolding first_value
form_get form key = first_value (lookup key form)

unfoldable pub write_params : Form → List Text → Text
unfolding form_get
write_params form [] = []
write_params form (k ∷ ks) = k ++ (form_get form k ++ write_params form ks)

module _ (sign : Text → Text → Text) where
  -- `computeTwilioSignature`
  unfoldable pub compute_twilio_signature : Text → Text → Form → Text
  unfolding write_params
  compute_twilio_signature auth_token full_url form =
      sign auth_token (full_url ++ write_params form (sort_texts (keys form)))

  -- `ValidateTwilioSignature`
  unfoldable pub validate_twilio_signature : Text → Text → Form → Text → Bool
  unfolding compute_twilio_signature
  validate_twilio_signature auth_token full_url form signature_header =
      if is_empty signature_header || is_empty auth_token
      then false
      else text_eq (compute_twilio_signature auth_token full_url form) signature_header
