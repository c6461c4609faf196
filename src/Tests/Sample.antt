-- ===== src/Tests/Sample.antt =====
-- A concrete `Json` whose encodings decode to what was encoded. Its digest is the sum of the payload.
use request_sudo.Base.{
  ℕ, zero, suc, ◌+◌, ◌≡◌, refl, sym, ◌∙◌, [], ◌∷◌, ◌++◌, append-nil, Option, none, some,
  some-eq-some, Text, codes,
}
use request_sudo.Base.Int.{ℤ, pos, negsuc}
use request_sudo.Core.{
  Actor, PeerIdentity, ExecutionSpec, ApprovalSummary, Request, ExecutionResult,
}
use request_sudo.Events.{
  EventType, request_created, request_approved, request_denied, request_expired, request_revoked,
  execution_started, execution_succeeded, execution_failed, recovery_marked_failed, other, Event,
  ApprovalDetails, DenialDetails,
}
use request_sudo.Events.Json.{Json, RoundTrips}
use request_sudo.Tests.Codec.{Codec, nat, pair, iso, list, text}

abbrev pub actor : Codec Actor
actor =
    iso (pair text text) (λ (k, i). record { kind = k; id = i }) (λ a. (a.kind, a.id)) (λ a. refl)

abbrev pub peer : Codec PeerIdentity
peer =
    iso (pair nat (pair nat (pair nat text)))
      (λ (u, r). record { uid = u; gid = r.0; pid = r.1.0; username = r.1.1 })
      (λ p. (p.uid, (p.gid, (p.pid, p.username)))) (λ p. refl)

abbrev pub spec : Codec ExecutionSpec
spec =
    iso (pair (list text) (pair (list (pair text text)) text))
      (λ (a, r). record { argv = a; env = r.0; cwd = r.1 }) (λ s. (s.argv, (s.env, s.cwd)))
      (λ s. refl)

abbrev pub summary : Codec ApprovalSummary
summary =
    iso (pair text (pair text (pair text (pair text (pair text text)))))
      (λ (a, r). record {
        requester = a;
        host = r.0;
        exact_command = r.1.0;
        reason = r.1.1.0;
        effect = r.1.1.1.0;
        risk = r.1.1.1.1;
      })
      (λ s. (s.requester, (s.host, (s.exact_command, (s.reason, (s.effect, s.risk)))))) (λ s. refl)

abbrev pub request : Codec Request
request =
    iso
      (pair (pair text (pair (list text) (pair text text)))
        (pair (pair peer (pair text (pair nat nat))) (pair text (pair spec summary))))
      (λ (a, r). record {
        id = a.0;
        argv = a.1.0;
        reason = a.1.1.0;
        mode = a.1.1.1;
        requester = r.0.0;
        host = r.0.1.0;
        created_at = r.0.1.1.0;
        expires_at = r.0.1.1.1;
        digest = r.1.0;
        spec = r.1.1.0;
        summary = r.1.1.1;
      })
      (λ q. (
        (q.id, (q.argv, (q.reason, q.mode))),
        ((q.requester, (q.host, (q.created_at, q.expires_at))), (q.digest, (q.spec, q.summary))),
      ))
      (λ q. refl)

abbrev pub to_int : ℕ × ℕ → ℤ
to_int (zero, n) = pos n
to_int (suc s, n) = negsuc n

abbrev pub from_int : ℤ → ℕ × ℕ
from_int (pos n) = (0, n)
from_int (negsuc n) = (1, n)

pub to_int-from_int : (z : ℤ) → to_int (from_int z) ≡ z
to_int-from_int (pos n) = refl
to_int-from_int (negsuc n) = refl

abbrev pub result : Codec ExecutionResult
result =
    iso
      (pair nat
        (pair nat (pair (iso (pair nat nat) to_int from_int to_int-from_int) (pair text text))))
      (λ (a, r). record {
        started_at = a;
        finished_at = r.0;
        exit_code = r.1.0;
        stdout = r.1.1.0;
        stderr = r.1.1.1;
      })
      (λ r. (r.started_at, (r.finished_at, (r.exit_code, (r.stdout, r.stderr))))) (λ r. refl)

abbrev pub to_type : ℕ × Text → EventType
to_type (zero, t) = request_created
to_type (suc zero, t) = request_approved
to_type (suc (suc zero), t) = request_denied
to_type (suc (suc (suc zero)), t) = request_expired
to_type (suc (suc (suc (suc zero))), t) = request_revoked
to_type (suc (suc (suc (suc (suc zero)))), t) = execution_started
to_type (suc (suc (suc (suc (suc (suc zero))))), t) = execution_succeeded
to_type (suc (suc (suc (suc (suc (suc (suc zero)))))), t) = execution_failed
to_type (suc (suc (suc (suc (suc (suc (suc (suc zero))))))), t) = recovery_marked_failed
to_type (suc (suc (suc (suc (suc (suc (suc (suc (suc n)))))))), t) = other t

abbrev pub from_type : EventType → ℕ × Text
from_type request_created = (0, [])
from_type request_approved = (1, [])
from_type request_denied = (2, [])
from_type request_expired = (3, [])
from_type request_revoked = (4, [])
from_type execution_started = (5, [])
from_type execution_succeeded = (6, [])
from_type execution_failed = (7, [])
from_type recovery_marked_failed = (8, [])
from_type (other t) = (9, t)

pub to_type-from_type : (e : EventType) → to_type (from_type e) ≡ e
to_type-from_type request_created = refl
to_type-from_type _ = refl

abbrev pub event : Codec Event
event =
    iso
      (pair (pair text (pair text (pair text text))) (
        pair nat
          (pair actor (pair (iso (pair nat text) to_type from_type to_type-from_type) text))))
      (λ (a, r). record {
        event_id = a.0;
        prev_hash = a.1.0;
        hash = a.1.1.0;
        request_id = a.1.1.1;
        timestamp = r.0;
        actor = r.1.0;
        type = r.1.1.0;
        details = r.1.1.1;
      })
      (λ e. (
        (e.event_id, (e.prev_hash, (e.hash, e.request_id))),
        (e.timestamp, (e.actor, (e.type, e.details))),
      ))
      (λ e. refl)

abbrev pub approval : Codec ApprovalDetails
approval =
    iso (pair actor text) (λ (a, c). record { approver = a; approval_code = c })
      (λ d. (d.approver, d.approval_code)) (λ d. refl)

abbrev pub denial : Codec DenialDetails
denial =
    iso (pair actor text) (λ (a, c). record { approver = a; reason = c })
      (λ d. (d.approver, d.reason)) (λ d. refl)

module _ {A : Type 0} (c : Codec A) where
  abbrev pub first : Option (A × Text) → Option A
  first none = none
  first (some (a, r)) = some a

  abbrev pub decode : Text → Option A
  decode t = first (c.dec t)

  decode-enc : (a : A) (t rest : Text) → c.enc a ++ rest ≡ t → decode t ≡ some a
  decode-enc a t rest h = rw (← h) (rw (c.dec-enc a rest))

abbrev pub total : Text → ℕ
total [] = 0
total (n ∷ t) = n + total t

abbrev pub sample : Json
sample = record {
  marshal_created = λ r. some (request.enc r);
  unmarshal_created = decode request;
  marshal_approval = λ a. some (approval.enc a);
  unmarshal_approval = decode approval;
  marshal_denial = λ a. some (denial.enc a);
  unmarshal_denial = decode denial;
  marshal_started = λ d. some d.digest;
  marshal_finished = λ r. some (result.enc r);
  unmarshal_finished = decode result;
  marshal_recovery = λ t. some t;
  marshal_event = λ e. some (event.enc e ++ codes "}");
  unmarshal_event = decode event;
  marshal_envelope = λ h. some (
      event.enc (record {
        event_id = h.event_id;
        prev_hash = h.prev_hash;
        hash = [];
        request_id = h.request_id;
        timestamp = h.timestamp;
        actor = h.actor;
        type = h.type;
        details = h.details;
      }));
  marshal_digest = λ d. d.request_id;
  sha256_hex = λ t. total t ∷ [];
}

pub sample-RoundTrips : RoundTrips sample
sample-RoundTrips = record {
  created = λ r d h. decode-enc request r d [] (append-nil (request.enc r) ∙ some-eq-some h);
  approval = λ r d h. decode-enc approval r d [] (append-nil (approval.enc r) ∙ some-eq-some h);
  denial = λ r d h. decode-enc denial r d [] (append-nil (denial.enc r) ∙ some-eq-some h);
  finished = λ r d h. decode-enc result r d [] (append-nil (result.enc r) ∙ some-eq-some h);
  event = λ e l h. decode-enc event e l (codes "}") (some-eq-some h);
  event_object = λ e l h. (event.enc e, sym (some-eq-some h));
}
