-- ===== src/Control/Reading.antt =====
-- internal/control: the handlers of the audit log (security_routes.go) and of the component inventory
-- (inventory_routes.go).
use quantum_control.Prelude.{
  ◌||◌, Option, none, some, [], ltb, if◌then◌else◌, Result, ok, err, ◌>>=◌, ◌>>◌, refuse, or_fail,
  length,
}
use quantum_control.Text.{Text, text, ◌==◌}
use quantum_control.Text.Trim.{trim_space}
use quantum_control.Prelude.Int.{ℤ, pos, below, above}
use quantum_control.Security.Audit.{AuditStore, query}
use quantum_control.Security.Audit.Integrity.{integrity}
use quantum_control.Inventory.{Component, Snapshot}
use quantum_control.Control.Server.{
  Server, State, Context, Reply, audit_body, integrity_body, audit_missing, snapshot_body,
  component_body, write_json, write_problem, at_world,
}

-- The query of a request for audit records; a missing parameter is empty.
pub record AuditQuery : Type 0 where
  pub limit : Text
  pub actor_id : Text
  pub action : Text

-- The limit of handleAuditQuery, from 1 through 500. `atoi` is strconv.Atoi.
unfoldable pub parse_limit : (Text → Option ℤ) → Text → Text → Result Reply ℤ
parse_limit atoi id given =
    let raw = trim_space given in
    let refused : Reply =
      write_problem id 400 (text "invalid_limit")
        (text "limit must be an integer from 1 through 500.") in
    if raw == [] then ok (pos 100) else do
      parsed ← or_fail (atoi raw) refused
      refuse (below parsed 1 || above parsed 500) refused
      ok parsed

-- handleAuditQuery on a store
abbrev query_reply : (Text → Option ℤ) → Text → AuditQuery → AuditStore → Result Reply Reply
query_reply atoi id q store = do
  limit ← parse_limit atoi id q.limit
  let actor_id = trim_space q.actor_id
  let action = trim_space q.action
  refuse (ltb 128 (length actor_id) || ltb 160 (length action)) (
      write_problem id 400 (text "invalid_filter")
        (text "Audit filters exceed the supported length."))
  ok (write_json 200 (audit_body (integrity store) (query limit actor_id action store)))

abbrev either_reply : Result Reply Reply → Reply
either_reply (ok r) = r
either_reply (err r) = r

abbrev inventory_unavailable : Text → Reply
inventory_unavailable id =
    write_problem id 500 (text "inventory_unavailable")
      (text "The read-only component inventory could not be completed.")

module _ {W : Type 0} where
  -- handleAuditQuery
  unfoldable pub handle_audit_query :
      (Text → Option ℤ) → AuditQuery → Context → State W → Reply × State W
  handle_audit_query atoi q context state = elim state.audit [
    | none ↦ (
      write_problem context.request_id 503 (text "audit_unavailable")
          (text "Durable audit storage is unavailable."),
      state,
    )
    | some store ↦ (either_reply (query_reply atoi context.request_id q store), state)
  ]

  -- handleAuditIntegrity
  unfoldable pub handle_audit_integrity : Context → State W → Reply × State W
  handle_audit_integrity context state = elim state.audit [
    | none ↦ (write_json 503 audit_missing, state)
    | some store ↦ (write_json 200 (integrity_body (integrity store)), state)
  ]

  abbrev pub snapshot_reply : Text → State W → Option Snapshot × W → Reply × State W
  snapshot_reply id state (none, w) = (inventory_unavailable id, at_world state w)
  snapshot_reply id state (some s, w) = (write_json 200 (snapshot_body s), at_world state w)

  -- inventoryHandler on /v1/components
  unfoldable pub handle_components : Server W → Context → State W → Reply × State W
  handle_components server context state =
      snapshot_reply context.request_id state (server.scanner.snapshot state.world)

  abbrev pub component_reply : Text → State W → Option (Option Component) × W → Reply × State W
  component_reply id state (none, w) = (inventory_unavailable id, at_world state w)
  component_reply id state (some none, w) = (
    write_problem id 404 (text "component_not_found")
        (text "The requested component identifier is not part of the inventory contract."),
    at_world state w,
  )
  component_reply id state (some (some c), w) =
      (write_json 200 (component_body c), at_world state w)

  -- inventoryHandler on /v1/components/{id}
  unfoldable pub handle_component : Server W → Text → Context → State W → Reply × State W
  handle_component server name context state =
      component_reply context.request_id state (server.scanner.component name state.world)
