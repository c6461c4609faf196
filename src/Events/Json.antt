-- ===== src/Events/Json.antt =====
-- `encoding/json` and SHA-256, which the program calls: a parameter of the model. An encoder returns
-- `none` where `json.Marshal` returns an error, a decoder where `json.Unmarshal` does.
use request_sudo.Base.{ℕ, ◌≡◌, List, ◌++◌, Option, some, Text, codes}
use request_sudo.Core.{Actor, Request, ExecutionResult}
use request_sudo.Events.{EventType, Event, ApprovalDetails, DenialDetails, ExecutionStartedDetails}

-- `hashEnvelope` of internal/events/log.go: an event without its own hash.
pub record HashEnvelope : Type 0 where
  pub event_id : Text
  pub prev_hash : Text
  pub request_id : Text
  pub timestamp : ℕ
  pub actor : Actor
  pub type : EventType
  pub details : Text

-- The payload of `digestRequest` of internal/broker/service.go.
pub record DigestPayload : Type 0 where
  pub argv : List Text
  pub env : List Text
  pub cwd : Text
  pub requester_uid : ℕ
  pub request_id : Text
  pub expiry : ℕ

pub record Json : Type 0 where
  pub marshal_created : Request → Option Text
  pub unmarshal_created : Text → Option Request
  pub marshal_approval : ApprovalDetails → Option Text
  pub unmarshal_approval : Text → Option ApprovalDetails
  pub marshal_denial : DenialDetails → Option Text
  pub unmarshal_denial : Text → Option DenialDetails
  pub marshal_started : ExecutionStartedDetails → Option Text
  pub marshal_finished : ExecutionResult → Option Text
  pub unmarshal_finished : Text → Option ExecutionResult
  pub marshal_recovery : Text → Option Text
  pub marshal_event : Event → Option Text
  pub unmarshal_event : Text → Option Event
  pub marshal_envelope : HashEnvelope → Option Text
  pub marshal_digest : DigestPayload → Text
  -- The hexadecimal digits of the SHA-256 sum.
  pub sha256_hex : Text → Text

-- What `encoding/json` documents of these types, for texts that are valid UTF-8: what was encoded
-- decodes to itself, on one line.
pub record RoundTrips (J : Json) : Type 0 where
  pub created :
      (r : Request) (d : Text) → J.marshal_created r ≡ some d → J.unmarshal_created d ≡ some r
  pub approval :
      (a : ApprovalDetails) (d : Text)
      → J.marshal_approval a ≡ some d
      → J.unmarshal_approval d ≡ some a
  pub denial :
      (a : DenialDetails) (d : Text) → J.marshal_denial a ≡ some d → J.unmarshal_denial d ≡ some a
  pub finished :
      (r : ExecutionResult) (d : Text)
      → J.marshal_finished r ≡ some d
      → J.unmarshal_finished d ≡ some r
  pub event : (e : Event) (l : Text) → J.marshal_event e ≡ some l → J.unmarshal_event l ≡ some e
  -- The encoding of a struct ends in its brace.
  pub event_object :
      (e : Event) (l : Text) → J.marshal_event e ≡ some l → (s : Text) × (l ≡ s ++ codes "}")
