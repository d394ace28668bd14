-- ===== src/Control/Operations.antt =====
-- internal/control/server.go: the handlers that plan and execute operations without a confirmation,
-- and those that read the state of the broker.
use quantum_control.Prelude.{
  Bool, true, false, not, Option, none, some, List, [], ◌∷◌, ◌++◌, if◌then◌else◌, Result, ok, err,
}
use quantum_control.Text.{Text, text, ◌==◌}
use quantum_control.Text.Trim.{trim_space}
use quantum_control.Protocol
use quantum_control.Protocol.{OperationRequest, OperationResponse, OperationDefinition, Problem}
use quantum_control.Security.Types.{Actor, OperationPlan, AuditEvent, actor_tci}
use quantum_control.Security.Cache.{put}
use quantum_control.Security.Digest.{Sha256}
use quantum_control.Security.Plan.{PlanEncoder, PlanError, build, plan_parameters_map}
use quantum_control.Security.Audit.{AuditCodec}
use quantum_control.Control.Server.{
  Server, State, Draws, Context, Reply, Decoded, online, alive, ready, info_body, catalog_body,
  plan_body, response_body, result_body, write_json, write_problem, operation_http_status,
  broker_gateway_error, decode_body, append_audit, at_world,
}

-- prepareRequest
unfoldable pub prepare_request : Context → OperationRequest → OperationRequest
prepare_request context request = record request {
  actor = context.actor.id;
  confirmation = [];
  request_id =
      if trim_space request.request_id == [] then context.request_id else request.request_id;
}

-- The record of a plan.
abbrev pub plan_event : Actor → OperationPlan → AuditEvent
plan_event actor plan = record {
  event = if actor.kind == actor_tci then text "proposal.created" else text "plan.created";
  actor = actor;
  request_id = plan.request_id;
  session_id = plan.session_id;
  plan_id = plan.id;
  plan_digest = plan.digest;
  action = plan.action;
  risk = plan.risk;
  status = if not plan.valid then text "rejected" else text "valid";
  rollback_status = [];
  parameters = plan_parameters_map plan;
  error_code = plan.error_code;
}

abbrev pub error_code : Option Problem → Text
error_code none = []
error_code (some p) = p.code

-- The record of an execution.
abbrev pub execution_event : Context → OperationRequest → OperationResponse → AuditEvent
execution_event context request response = record {
  event = text "operation." ++ response.status;
  actor = context.actor;
  request_id = response.request_id;
  session_id = context.session_id;
  plan_id = [];
  plan_digest = [];
  action = response.action;
  risk = response.risk;
  status = response.status;
  rollback_status = [];
  parameters = request.parameters;
  error_code = error_code response.error;
}

abbrev plan_error : Text → Reply
plan_error id =
    write_problem id 500 (text "plan_contract_error")
      (text "The immutable operation plan could not be created.")

-- The replies to a completed read, and to any other response.
abbrev read_reply : OperationResponse → Reply
read_reply response =
    if not (response.status == text "completed")
    then write_json (operation_http_status response.status) (response_body response)
    else write_json 200 (result_body response.result)

-- The request of a read operation.
abbrev read_request : Context → Text → Protocol.StringMap → OperationRequest
read_request context action parameters = record {
  request_id = context.request_id;
  action = action;
  actor = context.actor.id;
  parameters = parameters;
  confirmation = [];
}

abbrev is_some {ℓ} : {A : Type ℓ} → Option A → Bool
is_some none = false
is_some (some a) = true

module _ {W : Type 0} where
  -- handleRoot and handleHealth
  abbrev pub handle_root : State W → Reply × State W
  handle_root state = (write_json 200 online, state)

  abbrev pub handle_health : State W → Reply × State W
  handle_health state = (write_json 200 alive, state)

  abbrev pub readiness : Text → State W → Bool × W → Reply × State W
  readiness id state (true, w) = (write_json 200 ready, at_world state w)
  readiness id state (false, w) = (
    write_problem id 503 (text "broker_unavailable") (text "The privileged broker is unavailable."),
    at_world state w,
  )

  -- handleReady. securityReady fails only without a plan cache.
  unfoldable pub handle_ready : Server W → Text → State W → Reply × State W
  handle_ready server id state = readiness id state (server.broker.health state.world)

  -- handleInfo: the capabilities that depend on the server.
  unfoldable pub handle_info : Server W → State W → Reply × State W
  handle_info server state =
      (write_json 200 (info_body (is_some state.audit) (is_some server.approval)), state)

  abbrev pub catalog_reply :
      Text → State W → Option (List OperationDefinition) × W → Reply × State W
  catalog_reply id state (none, w) = (broker_gateway_error id, at_world state w)
  catalog_reply id state (some operations, w) =
      (write_json 200 (catalog_body operations), at_world state w)

  -- handleOperations
  unfoldable pub handle_operations : Server W → Context → State W → Reply × State W
  handle_operations server context state =
      catalog_reply context.request_id state (server.broker.catalog state.world)

  abbrev pub read_state : Context → State W → Option OperationResponse × W → Reply × State W
  read_state context state (none, w) = (broker_gateway_error context.request_id, at_world state w)
  read_state context state (some response, w) = (read_reply response, at_world state w)

  -- handleSystemStatus
  unfoldable pub handle_system_status : Server W → Context → State W → Reply × State W
  handle_system_status server context state =
      read_state context state
        (server.broker.execute (read_request context (text "system.snapshot") []) state.world)

  -- handleServiceStatus
  unfoldable pub handle_service_status : Server W → Text → Context → State W → Reply × State W
  handle_service_status server unit context state = read_state context state (
      server.broker.execute
        (read_request context (text "service.status") ((text "unit", unit) ∷ [])) state.world)

  module _ (h : Sha256) (codec : AuditCodec) where
    -- The end of handlePlan: the plan is cached and recorded.
    abbrev pub planned :
        Draws → Context → State W → Result PlanError OperationPlan → Reply × State W
    planned d context state (err e) = (plan_error context.request_id, state)
    planned d context state (ok plan) = (
      write_json (if not plan.valid then 400 else 200) (plan_body plan),
      append_audit h codec d.first (plan_event context.actor plan)
          (record state { plans = put d.cached plan state.plans }),
    )

    -- handlePlan behind the call of the broker.
    abbrev pub build_plan :
        PlanEncoder
        → Server W
        → Draws
        → Context
        → State W
        → Option Protocol.OperationPlan × W
        → Reply × State W
    build_plan marshal server d context state (none, w) =
        (broker_gateway_error context.request_id, at_world state w)
    build_plan marshal server d context state (some plan, w) =
        planned d context (at_world state w)
          (build h marshal server.ttl d.built d.plan_id context.actor context.session_id plan)

    -- handlePlan
    unfoldable pub handle_plan :
        PlanEncoder
        → Server W
        → Draws
        → Decoded OperationRequest
        → Context
        → State W
        → Reply × State W
    handle_plan marshal server d body context state =
        elim (decode_body context.request_id (λ e. e) body) [
          | err reply ↦ (reply, state)
          | ok request ↦
              build_plan marshal server d context state
                (server.broker.plan (prepare_request context request) state.world)
        ]

    abbrev pub executed :
        Draws
        → Context
        → OperationRequest
        → State W
        → Option OperationResponse × W
        → Reply × State W
    executed d context request state (none, w) =
        (broker_gateway_error context.request_id, at_world state w)
    executed d context request state (some response, w) = (
      write_json (operation_http_status response.status) (response_body response),
      append_audit h codec d.first (execution_event context request response) (at_world state w),
    )

    -- handleExecute
    unfoldable pub handle_execute :
        Server W → Draws → Decoded OperationRequest → Context → State W → Reply × State W
    handle_execute server d body context state =
        elim (decode_body context.request_id (λ e. e) body) [
          | err reply ↦ (reply, state)
          | ok given ↦
              let request = prepare_request context given in
              executed d context request state (server.broker.execute request state.world)
        ]
