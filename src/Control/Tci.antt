-- ===== src/Control/Tci.antt =====
-- The routes that actors of the kind tci do not reach.
use quantum_control.Prelude.{
  ◌≡◌, refl, sym, ap, ◌∙◌, inl, inr, Bool, true, false, Option, some, arith, Bool-cases, ok,
}
use quantum_control.Text.{Text, text, ◌==◌}
use quantum_control.Prelude.Int.{ℤ}
use quantum_control.Text.Sort.{contains}
use quantum_control.Security.Types.{
  Actor, ActorRegistry, Permission, actor_tci, operation_execute, operation_mutate, audit_read,
  confirm,
}
use quantum_control.Security.Actor.{has_permission}
use mathlib.Core.Bool.{false≢true}
use quantum_control.Security.Actor.Laws.{tci_permissions}
use quantum_control.Security.Digest.{Sha256}
use quantum_control.Security.Grants.{ReadFile}
use quantum_control.Security.Plan.{PlanEncoder}
use quantum_control.Security.Audit.{AuditCodec}
use quantum_control.Config.{ControlConfig}
use quantum_control.Control.Server.{Server, State, Draws, SecurityDependencies, new_request_id}
use quantum_control.Control.Auth.{authenticate_request, forbidden}
use quantum_control.Control.Dependencies.{load_security_dependencies}
use quantum_control.Control.Routes.{
  Route, get_root, get_health, get_ready, get_info, get_operations, post_plan, get_system_status,
  get_service_status, get_components, get_component, post_execute, post_execute_approved, get_audit,
  get_audit_integrity, post_confirmations, Request, serve,
}
use quantum_control.Control.Guards.{route_permission, serve-forbidden}
use quantum_control.Control.Roles.{dependencies-Restricts}

-- The routes that an actor of the kind tci does not reach.
unfoldable pub is_reserved : Route → Bool
is_reserved (post_execute body) = true
is_reserved (post_execute_approved body) = true
is_reserved (get_audit q) = true
is_reserved get_audit_integrity = true
is_reserved (post_confirmations body) = true
is_reserved route = false

reserved_permission :
    (route : Route)
    → is_reserved route ≡ true
    → (p : Permission) × (route_permission route ≡ some p) × (contains p tci_permissions ≡ false)
unfolding is_reserved route_permission contains text ◌==◌
reserved_permission (post_execute body) e = (operation_execute, refl, refl)
reserved_permission (post_execute_approved body) e = (operation_mutate, refl, refl)
reserved_permission (get_audit q) e = (audit_read, refl, refl)
reserved_permission get_audit_integrity e = (audit_read, refl, refl)
reserved_permission (post_confirmations body) e = (confirm, refl, refl)
reserved_permission get_root e = absurd (ground arith)
reserved_permission get_health e = absurd (ground arith)
reserved_permission get_ready e = absurd (ground arith)
reserved_permission get_info e = absurd (ground arith)
reserved_permission get_operations e = absurd (ground arith)
reserved_permission (post_plan body) e = absurd (ground arith)
reserved_permission get_system_status e = absurd (ground arith)
reserved_permission (get_service_status unit) e = absurd (ground arith)
reserved_permission get_components e = absurd (ground arith)
reserved_permission (get_component name) e = absurd (ground arith)

module _ {W : Type 0} (h : Sha256) (marshal : PlanEncoder) (codec : AuditCodec)
    (atoi : Text → Option ℤ) where
  -- On a server with the authenticators that LoadSecurityDependencies loads from any actor file and
  -- any API token, an actor of the kind tci is forbidden to execute an operation, with or without a
  -- confirmation, to confirm one and to read the audit log, and the request changes nothing.
  pub tci_forbidden :
      (decode : Text → Option ActorRegistry) (actors : Option Text) (file : ReadFile)
      (config : ControlConfig) (dependencies : SecurityDependencies) (server : Server W) (d : Draws)
      (request : Request) (actor : Actor) (credential : Text) (state : State W)
      → load_security_dependencies h codec decode actors file config ≡ ok dependencies
      → server.authenticator ≡ dependencies.authenticator
      → authenticate_request server.authenticator request.headers.authorization
        ≡ some (actor, credential)
      → (actor.kind == actor_tci) ≡ true
      → is_reserved request.route ≡ true
      → serve h marshal codec atoi server d request state
        ≡ (forbidden (new_request_id d.request_id), state)
  tci_forbidden decode actors file config dependencies server d request actor credential state load
        same authentic kind reserved =
      let (p, needed, outside) = reserved_permission request.route reserved in
      let header = request.headers.authorization in
      serve-forbidden h marshal codec atoi server d request p actor credential state needed
        authentic (lacks p outside (ap (λ f. authenticate_request f header) (sym same) ∙ authentic))
    where
      lacks :
          (p : Permission)
          → contains p tci_permissions ≡ false
          → authenticate_request dependencies.authenticator request.headers.authorization
            ≡ some (actor, credential)
          → has_permission actor p ≡ false
      lacks p outside e = elim (Bool-cases (has_permission actor p)) [
        | inr g ↦ g
        | inl g ↦ absurd (
            false≢true (
              sym outside
              ∙ dependencies-Restricts h codec decode actors file config dependencies
                  request.headers.authorization credential actor p load e kind g))
      ]
