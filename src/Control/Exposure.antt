-- ===== src/Control/Exposure.antt =====
-- What a client without a credential reaches.
use quantum_control.Prelude.{
  ◌≡◌, refl, sym, ap, ◌∙◌, ◌≢◌, inl, inr, Bool, true, false, ◌&&◌, Option, none, some, List, [],
  ◌∷◌, ◌++◌, arith, if◌then◌else◌, Bool-cases, Option-cases, ok, Result-cases,
}
use quantum_control.Text.{Text, text, ◌==◌}
use quantum_control.Text.Trim.{trim_space}
use quantum_control.Prelude.Int.{ℤ}
use quantum_control.Text.Prefix.{strip_prefix}
use quantum_control.Text.Sort.{contains, sort, unique}
use quantum_control.Security.Types.{
  ActorRegistry, Permission, operation_mutate, audit_read, confirm,
}
use quantum_control.Security.Actor.{
  has_permission, local_read_only_actor, legacy_service_actor, normalize_actor, matches_actor_id,
  collect_permissions, role_permissions,
}
use quantum_control.Text.Order.{text_lt}
use quantum_control.Security.Digest.{Sha256}
use quantum_control.Security.Auth.{Authenticator, load_actor_registry, new_static_authenticator}
use quantum_control.Security.Grants.{ReadFile}
use quantum_control.Security.Plan.{PlanEncoder}
use quantum_control.Security.Audit.{AuditCodec}
use quantum_control.Config.{ControlConfig, Parsers}
use quantum_control.Config.Valid.{is_loopback_listen}
use quantum_control.Config.Load.{Environment, load_control}
use quantum_control.Control.Server.{Server, State, Draws, SecurityDependencies, new_request_id}
use quantum_control.Control.Auth.{authenticate_request, forbidden, unauthorized}
use quantum_control.Control.Dependencies.{
  load_security_dependencies, registry_authenticators, legacy_authenticators, multi_or_nil,
}
use quantum_control.Control.Routes.{
  Route, get_root, get_health, get_ready, get_info, get_operations, post_plan, get_system_status,
  get_service_status, get_components, get_component, post_execute, post_execute_approved, get_audit,
  get_audit_integrity, post_confirmations, Request, serve,
}
use quantum_control.Control.Guards.{route_permission, serve-unauthorized, serve-forbidden}
use quantum_control.Control.Roles.{dependencies_inv}
use quantum_control.Config.Valid.Laws.{valid_exposed}
use quantum_control.Config.Load.Laws.{load_control_valid}
use quantum_control.Control.Server.{BrokerApi, ApprovalApi, new_server_with_security}
use quantum_control.Inventory.{Scanner}

-- The routes that the bootstrap actor does not reach.
unfoldable pub is_privileged : Route → Bool
is_privileged (post_execute_approved body) = true
is_privileged (get_audit q) = true
is_privileged get_audit_integrity = true
is_privileged (post_confirmations body) = true
is_privileged route = false

privileged_permission :
    (route : Route)
    → is_privileged route ≡ true
    → (p : Permission) × (route_permission route ≡ some p)
      × (has_permission local_read_only_actor p ≡ false)
unfolding is_privileged route_permission has_permission local_read_only_actor normalize_actor
    trim_space text ◌==◌ matches_actor_id sort unique text_lt contains collect_permissions
    role_permissions
privileged_permission (post_execute_approved body) e = (operation_mutate, refl, refl)
privileged_permission (get_audit q) e = (audit_read, refl, refl)
privileged_permission get_audit_integrity e = (audit_read, refl, refl)
privileged_permission (post_confirmations body) e = (confirm, refl, refl)
privileged_permission get_root e = absurd (ground arith)
privileged_permission get_health e = absurd (ground arith)
privileged_permission get_ready e = absurd (ground arith)
privileged_permission get_info e = absurd (ground arith)
privileged_permission get_operations e = absurd (ground arith)
privileged_permission (post_plan body) e = absurd (ground arith)
privileged_permission (post_execute body) e = absurd (ground arith)
privileged_permission get_system_status e = absurd (ground arith)
privileged_permission (get_service_status unit) e = absurd (ground arith)
privileged_permission get_components e = absurd (ground arith)
privileged_permission (get_component name) e = absurd (ground arith)

no_bearer :
    (actors : Option Authenticator) (header : Text)
    → actors ≢ none
    → strip_prefix (text "Bearer ") header ≡ none
    → authenticate_request actors header ≡ none
unfolding authenticate_request
no_bearer none header given e = absurd (given refl)
no_bearer (some actors) header given e = rw e refl

module _ (h : Sha256) where
  configured :
      (decode : Text → Option ActorRegistry) (actors : Option Text) (config : ControlConfig)
      (registry legacy : List (Option Authenticator))
      → (config.api_token == [] && config.actor_file == []) ≡ false
      → registry_authenticators h decode actors config ≡ ok registry
      → legacy_authenticators h config ≡ ok legacy
      → multi_or_nil h (registry ++ legacy) ≢ none
  unfolding registry_authenticators legacy_authenticators
  configured decode actors config (f ∷ registry) legacy given r l = λ e. absurd (ground arith)
  configured decode actors config [] (f ∷ legacy) given r l = λ e. absurd (ground arith)
  configured decode actors config [] [] given r l = elim (Bool-cases (config.actor_file == [])) [
    | inr b ↦ elim (Result-cases (load_actor_registry decode actors)) [
      | inl (cs, x) ↦ absurd (ground arith)
      | inr (e, x) ↦ absurd (ground arith)
    ]
    | inl b ↦ elim (Bool-cases (config.api_token == [])) [
      | inl c ↦ absurd (ground arith)
      | inr c ↦
          elim (Option-cases (new_static_authenticator h legacy_service_actor config.api_token)) [
            | inl n ↦ absurd (ground arith)
            | inr (inner, n) ↦ elim (Result-cases inner) [
              | inl (cs, i) ↦ absurd (ground arith)
              | inr (e, i) ↦ absurd (ground arith)
            ]
          ]
    ]
  ]

module _ {W : Type 0} (h : Sha256) (marshal : PlanEncoder) (codec : AuditCodec)
    (atoi : Text → Option ℤ) where
  -- A server without an authenticator refuses to execute with a confirmation, to confirm and to
  -- show the audit log: as forbidden to a client without the Authorization header, which it takes
  -- for the bootstrap actor, and as unauthorized to any other. It changes nothing.
  pub anonymous_denied :
      (server : Server W) (d : Draws) (request : Request) (state : State W)
      → server.authenticator ≡ none
      → is_privileged request.route ≡ true
      → serve h marshal codec atoi server d request state ≡ (
        if trim_space request.headers.authorization == []
            then forbidden (new_request_id d.request_id)
            else unauthorized (new_request_id d.request_id),
        state,
      )
  unfolding authenticate_request
  anonymous_denied server d request state nobody privileged =
      let (p, needed, lacks) = privileged_permission request.route privileged in
      let header = request.headers.authorization in
      let read = ap (λ f. authenticate_request f header) nobody in
      elim (Bool-cases (trim_space header == [])) [
        | inl b ↦
            serve-forbidden h marshal codec atoi server d request p local_read_only_actor [] state
              needed (read ∙ rw b refl) lacks
            ∙ rw b refl
        | inr b ↦
            serve-unauthorized h marshal codec atoi server d request p state needed
              (read ∙ rw b refl)
            ∙ rw b refl
      ]

  -- A server that the loaded configuration lets listen beyond the loopback interface, with the
  -- dependencies loaded for that configuration, takes a request without a bearer token for
  -- unauthorized on every route that needs a permission, in every state, and changes nothing.
  pub exposed_unauthorized :
      (parsers : Parsers) (env : Environment) (decode : Text → Option ActorRegistry)
      (actors : Option Text) (file : ReadFile) (config : ControlConfig)
      (dependencies : SecurityDependencies) (broker : BrokerApi W)
      (approval : Option (ApprovalApi W)) (scanner : Scanner W) (bytes : Option Text) (world : W)
      (d : Draws) (request : Request) (p : Permission) (state : State W)
      → load_control parsers env ≡ ok config
      → is_loopback_listen parsers config.listen ≡ false
      → load_security_dependencies h codec decode actors file config ≡ ok dependencies
      → route_permission request.route ≡ some p
      → strip_prefix (text "Bearer ") request.headers.authorization ≡ none
      → let server =
          (new_server_with_security broker approval scanner dependencies bytes world).0 in
        serve h marshal codec atoi server d request state
        ≡ (unauthorized (new_request_id d.request_id), state)
  unfolding new_server_with_security
  exposed_unauthorized parsers env decode actors file config dependencies broker approval scanner
        bytes world d request p state loaded exposed load needed blank =
      let (registry, legacy, r, l, shape) =
        dependencies_inv h codec decode actors file config dependencies load in
      let given =
        valid_exposed parsers config (load_control_valid parsers env config loaded) exposed in
      let present = configured h decode actors config registry legacy given r l in
      serve-unauthorized h marshal codec atoi
        (new_server_with_security broker approval scanner dependencies bytes world).0 d request p
        state needed
        (no_bearer dependencies.authenticator request.headers.authorization
          (λ e. present (sym shape ∙ e)) blank)
