-- ===== src/Broker/Review.antt =====
-- internal/broker/service.go: `Approve` and `Deny`.
use request_sudo.Base.{Option, none, some, if◌then◌else◌}
use request_sudo.Core.{rejected, error}
use request_sudo.Events.{request_approved, request_denied}
use request_sudo.Events.Json.{Json}
use request_sudo.Projection.{Snapshot, get, is_pending}
use request_sudo.Protocol.{
  Message, request_not_found, request_not_pending, Response, plain_response, from_snapshot,
}
use request_sudo.Protocol
use request_sudo.Broker.State.{Exec, pure, ◌>>=◌}
use request_sudo.Broker.Requests.{
  ReviewInput, Env, validate_approver, expire_if_needed, commit_details, reply,
}

module _ (J : Json) where
  -- `Approve` after `validateApprover`
  unfoldable pub approve_valid : Env → ReviewInput → Option Message → Exec Response
  approve_valid env input (some message) = pure (plain_response input.request_id rejected message)
  approve_valid env input none =
      commit_details J env.event input.request_id input.approver request_approved (
        J.marshal_approval
          (record { approver = input.approver; approval_code = input.approval_code }))
      >>= λ _. reply J input.request_id Protocol.request_approved

  -- `Approve` after `Get`
  unfoldable pub approve_found : Env → ReviewInput → Option Snapshot → Exec Response
  unfolding approve_valid
  approve_found env input none = pure (plain_response input.request_id error request_not_found)
  approve_found env input (some snap) =
      if is_pending snap.status
      then approve_valid env input (validate_approver input.approver snap.request.requester)
      else pure (from_snapshot snap request_not_pending)

  -- `Approve`
  unfoldable pub approve : Env → ReviewInput → Exec Response
  unfolding approve_found
  approve env input = expire_if_needed J env input.request_id >>= λ _.
      λ s. approve_found env input (get s.projection input.request_id) s

  -- `Deny` after `validateApprover`
  unfoldable pub deny_valid : Env → ReviewInput → Option Message → Exec Response
  deny_valid env input (some message) = pure (plain_response input.request_id rejected message)
  deny_valid env input none =
      commit_details J env.event input.request_id input.approver request_denied
        (J.marshal_denial (record { approver = input.approver; reason = input.reason }))
      >>= λ _. reply J input.request_id Protocol.request_denied

  -- `Deny` after `Get`
  unfoldable pub deny_found : Env → ReviewInput → Option Snapshot → Exec Response
  unfolding deny_valid
  deny_found env input none = pure (plain_response input.request_id error request_not_found)
  deny_found env input (some snap) =
      if is_pending snap.status
      then deny_valid env input (validate_approver input.approver snap.request.requester)
      else pure (from_snapshot snap request_not_pending)

  -- `Deny`
  unfoldable pub deny : Env → ReviewInput → Exec Response
  unfolding deny_found
  deny env input = expire_if_needed J env input.request_id >>= λ _.
      λ s. deny_found env input (get s.projection input.request_id) s
