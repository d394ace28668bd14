-- ===== src/Control/Routes.antt =====
-- internal/control/server.go: Handler and ServeHTTP. The multiplexer picks the route of a request.
use quantum_control.Prelude.{Option, List, [], ◌∷◌}
use quantum_control.Text.{Text}
use quantum_control.Prelude.Int.{ℤ}
use quantum_control.Protocol.{OperationRequest}
use quantum_control.Security.Types.{
  control_read, inventory_read, operation_catalog, operation_plan, operation_execute,
  operation_mutate, audit_read, confirm,
}
use quantum_control.Security.Digest.{Sha256}
use quantum_control.Security.Plan.{PlanEncoder}
use quantum_control.Security.Audit.{AuditCodec}
use quantum_control.Control.Server.{Server, State, Draws, Reply, Decoded, new_request_id}
use quantum_control.Control.Auth.{Headers, require_permission}
use quantum_control.Control.Operations.{
  handle_root, handle_health, handle_ready, handle_info, handle_operations, handle_system_status,
  handle_service_status, handle_plan, handle_execute,
}
use quantum_control.Control.Approvals.{
  ApprovedExecutionRequest, ConfirmationRequest, handle_approved_execute, handle_confirmation,
}
use quantum_control.Control.Reading.{
  AuditQuery, handle_audit_query, handle_audit_integrity, handle_components, handle_component,
}

-- The patterns of the multiplexers, with the parts of the request that their handlers read.
pub data Route : Type 0 where
  get_root get_health get_ready get_info get_operations : Route
  post_plan post_execute : Decoded OperationRequest → Route
  post_execute_approved : Decoded ApprovedExecutionRequest → Route
  get_system_status : Route
  get_service_status : Text → Route
  get_audit : AuditQuery → Route
  get_audit_integrity : Route
  post_confirmations : Decoded ConfirmationRequest → Route
  get_components : Route
  get_component : Text → Route

pub record Request : Type 0 where
  pub headers : Headers
  pub route : Route

module _ {W : Type 0} (h : Sha256) (marshal : PlanEncoder) (codec : AuditCodec)
    (atoi : Text → Option ℤ) where
  -- The handler of a route behind the middleware that gives the request its ID.
  abbrev pub route_handler : Server W → Draws → Text → Headers → Route → State W → Reply × State W
  route_handler server d id headers get_root = handle_root
  route_handler server d id headers get_health = handle_health
  route_handler server d id headers get_ready = handle_ready server id
  route_handler server d id headers get_info =
      require_permission server.authenticator control_read id headers
        (λ context. handle_info server)
  route_handler server d id headers get_operations =
      require_permission server.authenticator operation_catalog id headers
        (handle_operations server)
  route_handler server d id headers (post_plan body) =
      require_permission server.authenticator operation_plan id headers
        (handle_plan h codec marshal server d body)
  route_handler server d id headers (post_execute body) =
      require_permission server.authenticator operation_execute id headers
        (handle_execute h codec server d body)
  route_handler server d id headers (post_execute_approved body) =
      require_permission server.authenticator operation_mutate id headers
        (handle_approved_execute h codec server d body)
  route_handler server d id headers get_system_status =
      require_permission server.authenticator control_read id headers (handle_system_status server)
  route_handler server d id headers (get_service_status unit) =
      require_permission server.authenticator control_read id headers
        (handle_service_status server unit)
  route_handler server d id headers (get_audit q) =
      require_permission server.authenticator audit_read id headers (handle_audit_query atoi q)
  route_handler server d id headers get_audit_integrity =
      require_permission server.authenticator audit_read id headers handle_audit_integrity
  route_handler server d id headers (post_confirmations body) =
      require_permission server.authenticator confirm id headers
        (handle_confirmation h codec server d body)
  route_handler server d id headers get_components =
      require_permission server.authenticator inventory_read id headers (handle_components server)
  route_handler server d id headers (get_component name) =
      require_permission server.authenticator inventory_read id headers
        (handle_component server name)

  -- Server.ServeHTTP
  unfoldable pub serve : Server W → Draws → Request → State W → Reply × State W
  serve server d request =
      route_handler server d (new_request_id d.request_id) request.headers request.route

  -- Requests that the server handles one after the other.
  unfoldable pub serve_all : Server W → List (Draws × Request) → State W → State W
  serve_all server [] state = state
  serve_all server ((d, request) ∷ rest) state =
      serve_all server rest (serve server d request state).1
