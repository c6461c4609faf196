-- ===== src/Adapter/Config/Complete.antt =====
-- internal/twilioadapter/config.go: the credentials that are accepted.
use request_sudo.Base.{
  ◌≡◌, refl, subst, Bool, true, false, not, ◌&&◌, Text, Map, codes, is_empty, if◌then◌else◌,
}
use request_sudo.Adapter.Config.{
  TwilioConfig, FileRead, Loaded, loaded, failed, missing, url_without_secret, parse_env_file,
  config_of, check_config, load_twilio_env,
}

-- The credentials that calls of Twilio and the check of its signature need are there, and a callback
-- has its secret.
pub record IsComplete (cfg : TwilioConfig) : Type 0 where
  pub account : is_empty cfg.account_sid ≡ false
  pub token : is_empty cfg.auth_token ≡ false
  pub service : is_empty cfg.verify_service_sid ≡ false
  pub secret : is_empty cfg.routing_callback_url ≡ false → is_empty cfg.routing_callback_key ≡ false

loaded-eq-loaded : {A : Type 0} {a b : A} → loaded a ≡ loaded b → a ≡ b
loaded-eq-loaded h = cc

clash : (b : Bool) → b ≡ false → b ≡ true → ⊥
clash b f t = cc

check_config-IsComplete :
    (cfg cfg' : TwilioConfig) → check_config cfg ≡ loaded cfg' → (cfg ≡ cfg') × IsComplete cfg
unfolding check_config
check_config-IsComplete cfg cfg' =
    by_fields (is_empty cfg.account_sid) (is_empty cfg.auth_token) (is_empty cfg.verify_service_sid)
      (is_empty cfg.routing_callback_url) (is_empty cfg.routing_callback_key) refl refl refl refl
      refl
  where
    by_fields :
        (a t s u k : Bool)
        → is_empty cfg.account_sid ≡ a
        → is_empty cfg.auth_token ≡ t
        → is_empty cfg.verify_service_sid ≡ s
        → is_empty cfg.routing_callback_url ≡ u
        → is_empty cfg.routing_callback_key ≡ k
        → (if a
            then failed (missing (codes "TWILIO_ACCOUNT_SID"))
            else if t
            then failed (missing (codes "TWILIO_AUTH_TOKEN"))
            else if s
            then failed (missing (codes "TWILIO_VERIFY_SERVICE_SID"))
            else if not u && k
            then failed url_without_secret
            else loaded cfg)
          ≡ loaded cfg'
        → (cfg ≡ cfg') × IsComplete cfg
    by_fields true t s u k ea et es eu ek h = absurd cc
    by_fields false true s u k ea et es eu ek h = absurd cc
    by_fields false false true u k ea et es eu ek h = absurd cc
    by_fields false false false false true ea et es eu ek h = absurd cc
    by_fields false false false true k ea et es eu ek h = (
      loaded-eq-loaded h,
      record { account = ea; token = et; service = es; secret = λ f. absurd (clash _ f eu) },
    )
    by_fields false false false false false ea et es eu ek h =
        (loaded-eq-loaded h, record { account = ea; token = et; service = es; secret = λ f. ek })

-- Where `LoadTwilioEnv` accepts a file, the account, the token and the service are not empty, so that
-- no signature is checked against an empty token, and a callback comes with its secret.
pub load_twilio_env-IsComplete :
    (file : FileRead) (cfg : TwilioConfig) → load_twilio_env file ≡ loaded cfg → IsComplete cfg
unfolding load_twilio_env
load_twilio_env-IsComplete file cfg = by_pairs (parse_env_file file)
  where
    by_pairs :
        (o : Loaded (Map Text))
        → elim o [ loaded kv ↦ check_config (config_of kv) | failed e ↦ failed e ] ≡ loaded cfg
        → IsComplete cfg
    by_pairs (loaded kv) h =
        let (same, complete) = check_config-IsComplete (config_of kv) cfg h in
        subst IsComplete same complete
    by_pairs (failed e) h = absurd cc
