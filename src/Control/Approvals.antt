-- ===== src/Control/Approvals.antt =====
-- internal/control: the handlers that confirm a cached plan (security_routes.go) and that execute it
-- with a confirmation (mutation_routes.go).
use quantum_control.Prelude.{
  ◌||◌, Option, none, some, [], ◌++◌, ltb, if◌then◌else◌, Result, ok, err, ◌>>=◌, ◌>>◌, refuse,
  or_fail, length,
}
use quantum_control.Text.{Text, text, ◌==◌}
use quantum_control.Text.Trim.{trim_space}
use quantum_control.Protocol
use quantum_control.Protocol.{OperationResponse, Fields, Value, string, boolean, lookup}
use quantum_control.Security.Types.{OperationPlan, AuditEvent, GrantResponse}
use quantum_control.Security.Cache.{get}
use quantum_control.Security.Digest.{Sha256}
use quantum_control.Security.Plan.{plan_parameters_map}
use quantum_control.Security.Audit.{AuditCodec}
use quantum_control.Control.Server.{
  Server, ApprovalApi, State, Draws, Context, Reply, Decoded, response_body, grant_body, write_json,
  write_problem, operation_http_status, decode_body, append_audit, at_world,
}
use quantum_control.Control.Operations.{error_code}

pub record ApprovedExecutionRequest : Type 0 where
  pub plan_id : Text
  pub confirmation_token : Text

pub record ConfirmationRequest : Type 0 where
  pub plan_id : Text

abbrev string_or_empty : Option Value → Text
string_or_empty (some (string s)) = s
string_or_empty (some (boolean b)) = []
string_or_empty (some (Protocol.state s)) = []
string_or_empty none = []

-- recoveryStatus
unfoldable pub recovery_status : Option Fields → Text
recovery_status none = []
recovery_status (some result) =
    trim_space (string_or_empty (lookup (text "recovery_status") result))

-- What the records of an approved execution have in common.
abbrev pub approved_event : Context → OperationPlan → Text → Text → Text → AuditEvent
approved_event context plan event status rollback = record {
  event = event;
  actor = context.actor;
  request_id = context.request_id;
  session_id = context.session_id;
  plan_id = plan.id;
  plan_digest = plan.digest;
  action = plan.action;
  risk = plan.risk;
  status = status;
  rollback_status = rollback;
  parameters = plan_parameters_map plan;
  error_code = [];
}

abbrev pub attempt_event : Context → OperationPlan → AuditEvent
attempt_event context plan =
    approved_event context plan (text "operation.attempt") (text "attempted") (text "not_started")

abbrev pub unknown_event : Context → OperationPlan → AuditEvent
unknown_event context plan =
    record (approved_event context plan (text "operation.unknown") (text "unknown")
      (text "unknown")) { error_code = text "broker_transport_failed" }

abbrev pub outcome_event : Context → OperationPlan → OperationResponse → AuditEvent
outcome_event context plan response =
    record (approved_event context plan (text "operation." ++ response.status) response.status (
      if recovery_status response.result == []
      then text "not_required"
      else recovery_status response.result)) {
        request_id = response.request_id;
        error_code = error_code response.error;
      }

-- The record of a confirmation.
abbrev pub confirmation_event : Context → OperationPlan → AuditEvent
confirmation_event context plan =
    record (approved_event context plan (text "confirmation.issued") (text "issued") []) {
      parameters = [];
    }

-- The test of a trimmed plan ID.
abbrev check_plan_id : Text → Text → Result Reply (Unit {0})
check_plan_id id plan_id = refuse (plan_id == [] || ltb 160 (length plan_id)) (
    write_problem id 400 (text "invalid_plan_id")
      (text "plan_id is required and must match a cached plan."))

abbrev plan_not_found : Text → Reply
plan_not_found id =
    write_problem id 404 (text "plan_not_found")
      (text "The operation plan does not exist or has expired.")

module _ {W : Type 0} where
  -- handleApprovedExecute up to the read of the cache: the broker, the plan ID and the token.
  unfoldable pub approved_request :
      Text
      → Option (ApprovalApi W)
      → Decoded ApprovedExecutionRequest
      → Result Reply (ApprovalApi W × Text × Text)
  approved_request id approval body = do
    broker ← or_fail approval (
        write_problem id 503 (text "mutation_unavailable")
          (text "The privileged broker does not support approved mutations."))
    request ← decode_body id (λ e. text "A valid approved execution request is required.") body
    let plan_id = trim_space request.plan_id
    let token = trim_space request.confirmation_token
    check_plan_id id plan_id
    refuse (token == [] || ltb 512 (length token)) (
        write_problem id 400 (text "invalid_confirmation_token")
          (text "A bounded confirmation token is required."))
    ok (broker, plan_id, token)

  -- handleConfirmation up to the read of the cache: the broker and the plan ID.
  unfoldable pub confirmation_request :
      Text
      → Option (ApprovalApi W)
      → Decoded ConfirmationRequest
      → Result Reply (ApprovalApi W × Text)
  confirmation_request id approval body = do
    broker ← or_fail approval (
        write_problem id 503 (text "confirmation_unavailable")
          (text "The privileged broker does not support structured confirmations."))
    request ← decode_body id (λ e. text "A valid confirmation request is required.") body
    let plan_id = trim_space request.plan_id
    check_plan_id id plan_id
    ok (broker, plan_id)

  module _ (h : Sha256) (codec : AuditCodec) where
    -- handleApprovedExecute behind the call of the broker.
    abbrev pub approved_outcome :
        Draws → Context → OperationPlan → State W → Option OperationResponse × W → Reply × State W
    approved_outcome d context plan attempted (none, w) = (
      write_problem context.request_id 502 (text "broker_error")
          (text "The privileged broker request failed after the execution attempt was submitted."),
      append_audit h codec d.second (unknown_event context plan) (at_world attempted w),
    )
    approved_outcome d context plan attempted (some response, w) = (
      write_json (operation_http_status response.status) (response_body response),
      append_audit h codec d.second (outcome_event context plan response) (at_world attempted w),
    )

    -- handleApprovedExecute behind the read of the cache.
    abbrev pub execute_plan :
        ApprovalApi W → Draws → Context → Text → State W → Option OperationPlan → Reply × State W
    execute_plan broker d context token state none = (plan_not_found context.request_id, state)
    execute_plan broker d context token state (some plan) =
        let attempted = append_audit h codec d.first (attempt_event context plan) state in
        approved_outcome d context plan attempted
          (broker.execute_approved plan token context.credential attempted.world)

    -- handleApprovedExecute
    unfoldable pub handle_approved_execute :
        Server W → Draws → Decoded ApprovedExecutionRequest → Context → State W → Reply × State W
    handle_approved_execute server d body context state =
        elim (approved_request context.request_id server.approval body) [
          | err reply ↦ (reply, state)
          | ok (broker, plan_id, token) ↦
              let (found, plans) = get d.cached plan_id state.plans in
              execute_plan broker d context token (record state { plans = plans }) found
        ]

    -- handleConfirmation behind the call of the broker.
    abbrev pub confirmed :
        Draws → Context → OperationPlan → State W → Option GrantResponse × W → Reply × State W
    confirmed d context plan state (none, w) = (
      write_problem context.request_id 400 (text "confirmation_rejected")
          (text "The operation plan cannot be confirmed under the current policy."),
      at_world state w,
    )
    confirmed d context plan state (some grant, w) = (
      write_json 201 (grant_body grant),
      append_audit h codec d.first (confirmation_event context plan) (at_world state w),
    )

    -- handleConfirmation behind the read of the cache.
    abbrev pub confirm_plan :
        ApprovalApi W → Draws → Context → State W → Option OperationPlan → Reply × State W
    confirm_plan broker d context state none = (plan_not_found context.request_id, state)
    confirm_plan broker d context state (some plan) =
        confirmed d context plan state (broker.confirm plan context.credential state.world)

    -- handleConfirmation
    unfoldable pub handle_confirmation :
        Server W → Draws → Decoded ConfirmationRequest → Context → State W → Reply × State W
    handle_confirmation server d body context state =
        elim (confirmation_request context.request_id server.approval body) [
          | err reply ↦ (reply, state)
          | ok (broker, plan_id) ↦
              let (found, plans) = get d.cached plan_id state.plans in
              confirm_plan broker d context (record state { plans = plans }) found
        ]
