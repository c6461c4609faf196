-- ===== src/Adapter/Config.antt =====
-- internal/twilioadapter/config.go: the credentials of the adapter.
pub mod Complete
use request_sudo.Base.{
  ℕ, ◌*◌, ◌-◌, Bool, true, false, not, ◌&&◌, ◌||◌, List, [], ◌∷◌, ◌++◌, Option, none, some, Text,
  codes, Map, lookup, insert, length, take, is_empty, leb, ◌==◌, if◌then◌else◌,
}
use request_sudo.Base.Lines.{cut_lines, cut_at, cut_suffix, has_prefix, trim_prefix}
use request_sudo.Base.Trim.{trim_space}
use request_sudo.Events.Log.{drop_cr}

-- `TwilioConfig`
pub record TwilioConfig : Type 0 where
  pub account_sid : Text
  pub auth_token : Text
  pub verify_service_sid : Text
  pub from_number : Text
  pub routing_callback_url : Text
  pub routing_callback_key : Text

-- What the file system answers: the path or the file is not there, or its bytes are read, to their end
-- or up to an error.
pub data FileRead : Type 0 where
  no_path no_file : FileRead
  read broken : Text → FileRead

-- The errors of `LoadTwilioEnv`.
pub data ConfigError : Type 0 where
  bad_path not_opened line_too_long read_failed : ConfigError
  invalid_line : Text → ConfigError
  missing : Text → ConfigError
  url_without_secret : ConfigError

pub data Loaded (A : Type 0) : Type 0 where
  loaded : A → Loaded A
  failed : ConfigError → Loaded A

-- The limit that `scanner.Buffer` sets.
abbrev pub max_line : ℕ
max_line = 1024 * 1024

-- The lines that the scanner reads. The bytes after the last newline are a line too.
unfoldable pub scanned : Text → List Text
unfolding cut_lines
scanned content =
    let (lines, last) = cut_lines content in if is_empty last then lines else lines ++ last ∷ []

-- Takes off a pair of quotes around a value.
unfoldable pub unquote : Text → Text
unfolding cut_suffix
unquote [] = []
unquote (c ∷ value) =
    if c == 34 || c == 39
    then elim (cut_suffix c value) [ none ↦ c ∷ value | some inner ↦ inner ]
    else c ∷ value

-- What one line says.
pub data EnvLine : Type 0 where
  blank : EnvLine
  pair : Text → Text → EnvLine
  invalid : Text → EnvLine

-- From the position of the equals sign on.
unfoldable pub env_pair : Text → Option (Text × Text) → EnvLine
unfolding unquote trim_space
env_pair line none = invalid line
env_pair line (some ([], value)) = invalid line
env_pair line (some (c ∷ key, value)) = pair (trim_space (c ∷ key)) (unquote (trim_space value))

-- The body of the loop of `parseEnvFile`, for the trimmed line.
unfoldable pub env_line : Text → EnvLine
unfolding env_pair trim_prefix cut_at has_prefix
env_line line =
    if is_empty line || has_prefix line (codes "#")
    then blank
    else let rest = trim_prefix line (codes "export ") in env_pair rest (cut_at 61 rest)

unfoldable pub add_line : EnvLine → Map Text → Loaded (Map Text)
add_line blank out = loaded out
add_line (pair key value) out = loaded (insert key value out)
add_line (invalid line) out = failed (invalid_line line)

-- The loop of `parseEnvFile`.
unfoldable pub parse_env_lines : List Text → Map Text → Loaded (Map Text)
unfolding add_line env_line trim_space drop_cr
parse_env_lines [] out = loaded out
parse_env_lines (line ∷ lines) out =
    if leb max_line (length line)
    then failed line_too_long
    else elim (add_line (env_line (trim_space (drop_cr line))) out) [
      | loaded out' ↦ parse_env_lines lines out'
      | failed e ↦ failed e
    ]

-- `parseEnvFile`
unfoldable pub parse_env_file : FileRead → Loaded (Map Text)
unfolding parse_env_lines scanned
parse_env_file no_path = failed bad_path
parse_env_file no_file = failed not_opened
parse_env_file (read content) = parse_env_lines (scanned content) []
parse_env_file (broken content) = elim (parse_env_lines (scanned content) []) [
  | loaded out ↦ failed read_failed
  | failed e ↦ failed e
]

abbrev pub value_of : Option Text → Text
value_of none = []
value_of (some value) = value

-- `kv[key]`
abbrev pub env_value : Text → Map Text → Text
env_value key kv = value_of (lookup key kv)

unfoldable pub config_of : Map Text → TwilioConfig
config_of kv = record {
  account_sid = env_value (codes "TWILIO_ACCOUNT_SID") kv;
  auth_token = env_value (codes "TWILIO_AUTH_TOKEN") kv;
  verify_service_sid = env_value (codes "TWILIO_VERIFY_SERVICE_SID") kv;
  from_number = env_value (codes "TWILIO_FROM_NUMBER") kv;
  routing_callback_url = env_value (codes "SMS_ROUTING_CALLBACK_URL") kv;
  routing_callback_key = env_value (codes "SMS_ROUTING_CALLBACK_SECRET") kv;
}

unfoldable pub check_config : TwilioConfig → Loaded TwilioConfig
check_config cfg =
    if is_empty cfg.account_sid
    then failed (missing (codes "TWILIO_ACCOUNT_SID"))
    else if is_empty cfg.auth_token
    then failed (missing (codes "TWILIO_AUTH_TOKEN"))
    else if is_empty cfg.verify_service_sid
    then failed (missing (codes "TWILIO_VERIFY_SERVICE_SID"))
    else if not (is_empty cfg.routing_callback_url) && is_empty cfg.routing_callback_key
    then failed url_without_secret
    else loaded cfg

-- `LoadTwilioEnv`
unfoldable pub load_twilio_env : FileRead → Loaded TwilioConfig
unfolding parse_env_file config_of check_config
load_twilio_env file = elim (parse_env_file file) [
  | loaded kv ↦ check_config (config_of kv)
  | failed e ↦ failed e
]
