-- ===== src/Events.antt =====
-- internal/events/types.go: the events of the canonical log, and Go's error values as a type.
pub mod Json
pub mod Log
use request_sudo.Base.{ℕ, ◌≡◌, refl, ◌⊎◌, inl, inr, Text, Option}
use request_sudo.Core.{Status, Actor, Request, ExecutionResult}

-- The string constants `Type…`; any other string is `other`.
pub data EventType : Type 0 where
  request_created request_approved request_denied request_expired request_revoked : EventType
  execution_started execution_succeeded execution_failed recovery_marked_failed : EventType
  other : Text → EventType

-- `details` is the raw JSON, empty if there is none.
pub record Event : Type 0 where
  pub event_id : Text
  pub prev_hash : Text
  pub hash : Text
  pub request_id : Text
  pub timestamp : ℕ
  pub actor : Actor
  pub type : EventType
  pub details : Text

pub record ApprovalDetails : Type 0 where
  pub approver : Actor
  pub approval_code : Text

pub record DenialDetails : Type 0 where
  pub approver : Actor
  pub reason : Text

pub record ExecutionStartedDetails : Type 0 where
  pub executor : Text
  pub digest : Text

-- One constructor for each place that makes an error.
pub data Failure : Type 0 where
  marshal_failed open_failed write_failed sync_failed : Failure
  decode_event rehash_event line_too_long : Failure
  chain_mismatch event_hash_mismatch : Text → Failure
  already_exists : Text → Failure
  not_found : Text → EventType → Failure
  invalid_from : EventType → Status → Failure
  decode_details : Failure
  unsupported : EventType → Failure

pub data Result {ℓ} (A : Type ℓ) : Type ℓ where
  ok : A → Result A
  err : Failure → Result A

module _ {ℓ κ} {A : Type ℓ} {B : Type κ} where
  infixl 5 ◌>>=◌
  abbrev pub ◌>>=◌ : Result A → (A → Result B) → Result B
  err x >>= next = err x
  ok value >>= next = next value

  -- Inversion of a chain of steps that succeeds.
  pub >>=-eq-ok :
      (r : Result A) (next : A → Result B) {end : B}
      → (r >>= next) ≡ ok end
      → (value : A) × (r ≡ ok value) × (next value ≡ ok end)
  >>=-eq-ok (err x) next h = cc
  >>=-eq-ok (ok value) next h = (value, refl, h)

-- What an `encoding/json` decoder returns, as a result.
abbrev pub or_fail {ℓ} : {A : Type ℓ} → Failure → Option A → Result A
or_fail e Option.none = err e
or_fail e (Option.some a) = ok a

pub Result-cases {ℓ} :
    {A : Type ℓ} (r : Result A) → ((e : Failure) × (r ≡ err e)) ⊎ ((a : A) × (r ≡ ok a))
Result-cases (err e) = inl (e, refl)
Result-cases (ok a) = inr (a, refl)

-- Every value that is returned satisfies `P`.
abbrev pub AllOk {ℓ κ} : {A : Type ℓ} → (A → Type κ) → Result A → Type κ
AllOk P (ok a) = P a
AllOk P (err e) = Unit

pub ok-injective {ℓ} : {A : Type ℓ} {a b : A} → ok a ≡ ok b → a ≡ b
ok-injective h = cc
