-- ===== src/Control/Guards.antt =====
-- Which requests reach the handlers of the control server.
use quantum_control.Prelude.{
  ◌≡◌, refl, sym, ap, subst, ◌∙◌, ◌⊎◌, inl, inr, true, false, Option, none, some, [], ◌++◌, arith,
  Bool-cases, Option-cases, ok, err, some_inj,
}
use quantum_control.Text.{Text, text, ◌==◌}
use quantum_control.Text.Trim.{trim_space}
use quantum_control.Prelude.Int.{ℤ}
use quantum_control.Security.Types.{
  Actor, Permission, control_read, inventory_read, operation_catalog, operation_plan,
  operation_execute, operation_mutate, audit_read, confirm,
}
use quantum_control.Security.Actor.{has_permission}
use quantum_control.Security.Digest.{Sha256}
use quantum_control.Security.Auth.{Authenticator}
use quantum_control.Security.Plan.{PlanEncoder}
use quantum_control.Security.Audit.{AuditCodec}
use quantum_control.Control.Server.{Server, State, Draws, Context, Reply, new_request_id}
use quantum_control.Control.Auth.{
  Headers, authenticate_request, valid_correlation_id, unauthorized, forbidden, invalid_session,
  session_of, authorize, require_permission,
}
use quantum_control.Control.Operations.{
  handle_info, handle_operations, handle_system_status, handle_service_status, handle_plan,
  handle_execute,
}
use quantum_control.Control.Approvals.{handle_approved_execute, handle_confirmation}
use quantum_control.Control.Reading.{
  handle_audit_query, handle_audit_integrity, handle_components, handle_component,
}
use quantum_control.Control.Routes.{
  Route, get_root, get_health, get_ready, get_info, get_operations, post_plan, post_execute,
  post_execute_approved, get_system_status, get_service_status, get_audit, get_audit_integrity,
  post_confirmations, get_components, get_component, Request, route_handler, serve,
}

-- The permission that the documentation gives for a route; three routes are open.
unfoldable pub route_permission : Route → Option Permission
route_permission get_root = none
route_permission get_health = none
route_permission get_ready = none
route_permission get_info = some control_read
route_permission get_operations = some operation_catalog
route_permission (post_plan body) = some operation_plan
route_permission (post_execute body) = some operation_execute
route_permission (post_execute_approved body) = some operation_mutate
route_permission get_system_status = some control_read
route_permission (get_service_status unit) = some control_read
route_permission (get_audit q) = some audit_read
route_permission get_audit_integrity = some audit_read
route_permission (post_confirmations body) = some confirm
route_permission get_components = some inventory_read
route_permission (get_component name) = some inventory_read

-- The context of a request that passes: its actor is the one that the header authenticates, with
-- the permission, and its session is named by the header or for the request.
pub record IsAdmitted (actors : Option Authenticator) (p : Permission) (id : Text)
    (headers : Headers) (context : Context) : Type 0 where
  pub authentic :
      authenticate_request actors headers.authorization ≡ some (context.actor, context.credential)
  pub permitted : has_permission context.actor p ≡ true
  pub request : context.request_id ≡ id
  pub session :
      (context.session_id ≡ text "session-" ++ id)
      ⊎ (valid_correlation_id context.session_id ≡ true)

-- The replies that refuse a request.
abbrev pub IsRefusal : Text → Reply → Type 0
IsRefusal id reply =
    (reply ≡ unauthorized id) ⊎ ((reply ≡ forbidden id) ⊎ (reply ≡ invalid_session id))

session_of-cases :
    (id header : Text)
    → ((s : Text) × (session_of id header ≡ ok s)
        × ((s ≡ text "session-" ++ id) ⊎ (valid_correlation_id s ≡ true)))
      ⊎ (session_of id header ≡ err (invalid_session id))
unfolding session_of
session_of-cases id header = elim (Bool-cases (trim_space header == [])) [
  | inl b ↦ inl (text "session-" ++ id, rw b refl, inl refl)
  | inr b ↦ elim (Bool-cases (valid_correlation_id (trim_space header))) [
    | inl v ↦ inl (trim_space header, rw (b, v) refl, inr v)
    | inr v ↦ inr (rw (b, v) refl)
  ]
]

pub authorize-cases :
    (actors : Option Authenticator) (p : Permission) (id : Text) (headers : Headers)
    → ((context : Context) × (authorize actors p id headers ≡ ok context)
        × IsAdmitted actors p id headers context)
      ⊎ ((reply : Reply) × (authorize actors p id headers ≡ err reply) × IsRefusal id reply)
unfolding authorize
authorize-cases actors p id headers =
    elim (Option-cases (authenticate_request actors headers.authorization)) [
      | inl a ↦ inr (unauthorized id, rw a refl, inl refl)
      | inr ((actor, credential), a) ↦ elim (Bool-cases (has_permission actor p)) [
        | inr b ↦ inr (forbidden id, rw (a, b) refl, inr (inl refl))
        | inl b ↦ elim (session_of-cases id headers.session) [
          | inr s ↦ inr (invalid_session id, rw (a, b, s) refl, inr (inr refl))
          | inl (session, s, named) ↦ inl (
            record {
              request_id = id;
              session_id = session;
              actor = actor;
              credential = credential;
            },
            rw (a, b, s) refl,
            record { authentic = a; permitted = b; request = refl; session = named },
          )
        ]
      ]
    ]

module _ {W : Type 0} where
  require_permission_refused :
      (actors : Option Authenticator) (p : Permission) (id : Text) (headers : Headers)
      (next : Context → State W → Reply × State W) (state : State W) (reply : Reply)
      → authorize actors p id headers ≡ err reply
      → require_permission actors p id headers next state ≡ (reply, state)
  unfolding require_permission
  require_permission_refused actors p id headers next state reply e =
      rw (require_permission, e) refl

module _ {W : Type 0} (h : Sha256) (marshal : PlanEncoder) (codec : AuditCodec)
    (atoi : Text → Option ℤ) where
  -- Behind the permission that a route needs stands its handler.
  route_handler-guard :
      (server : Server W) (d : Draws) (id : Text) (headers : Headers) (route : Route)
      (p : Permission)
      → route_permission route ≡ some p
      → (next : Context → State W → Reply × State W) × ((state : State W)
          → route_handler h marshal codec atoi server d id headers route state
            ≡ require_permission server.authenticator p id headers next state)
  unfolding route_permission
  route_handler-guard server d id headers get_root p e = absurd (ground arith)
  route_handler-guard server d id headers get_health p e = absurd (ground arith)
  route_handler-guard server d id headers get_ready p e = absurd (ground arith)
  route_handler-guard server d id headers get_info p e =
      (λ context. handle_info server, λ state. rw (some_inj e) refl)
  route_handler-guard server d id headers get_operations p e =
      (handle_operations server, λ state. rw (some_inj e) refl)
  route_handler-guard server d id headers (post_plan body) p e =
      (handle_plan h codec marshal server d body, λ state. rw (some_inj e) refl)
  route_handler-guard server d id headers (post_execute body) p e =
      (handle_execute h codec server d body, λ state. rw (some_inj e) refl)
  route_handler-guard server d id headers (post_execute_approved body) p e =
      (handle_approved_execute h codec server d body, λ state. rw (some_inj e) refl)
  route_handler-guard server d id headers get_system_status p e =
      (handle_system_status server, λ state. rw (some_inj e) refl)
  route_handler-guard server d id headers (get_service_status unit) p e =
      (handle_service_status server unit, λ state. rw (some_inj e) refl)
  route_handler-guard server d id headers (get_audit q) p e =
      (handle_audit_query atoi q, λ state. rw (some_inj e) refl)
  route_handler-guard server d id headers get_audit_integrity p e =
      (handle_audit_integrity, λ state. rw (some_inj e) refl)
  route_handler-guard server d id headers (post_confirmations body) p e =
      (handle_confirmation h codec server d body, λ state. rw (some_inj e) refl)
  route_handler-guard server d id headers get_components p e =
      (handle_components server, λ state. rw (some_inj e) refl)
  route_handler-guard server d id headers (get_component name) p e =
      (handle_component server name, λ state. rw (some_inj e) refl)

  -- On a route that needs a permission the server either refuses the request, as unauthorized, as
  -- forbidden or for its session, and changes nothing, not even by a call of the broker, or the
  -- header authenticates an actor that has the permission, with a session that is valid or named for
  -- the request.
  pub serve_guarded :
      (server : Server W) (d : Draws) (request : Request) (p : Permission) (state state' : State W)
      (reply : Reply)
      → route_permission request.route ≡ some p
      → serve h marshal codec atoi server d request state ≡ (reply, state')
      → let id = new_request_id d.request_id in
        (IsRefusal id reply × (state' ≡ state))
        ⊎ ((context : Context) × IsAdmitted server.authenticator p id request.headers context)
  unfolding serve
  serve_guarded server d request p state state' reply e run =
      let id = new_request_id d.request_id in
      let (next, guarded) = route_handler-guard server d id request.headers request.route p e in
      elim (authorize-cases server.authenticator p id request.headers) [
        | inl (context, a, admitted) ↦ inr (context, admitted)
        | inr (refused, a, refusal) ↦
            let left =
              sym run
              ∙ guarded state
              ∙ require_permission_refused server.authenticator p id request.headers next state
                  refused a in
            inl (subst (IsRefusal id) (sym (ap (λ x. x.0) left)) refusal, ap (λ x. x.1) left)
      ]

  -- Without an authenticated actor, and without the permission, nothing is reached.
  pub serve-unauthorized :
      (server : Server W) (d : Draws) (request : Request) (p : Permission) (state : State W)
      → route_permission request.route ≡ some p
      → authenticate_request server.authenticator request.headers.authorization ≡ none
      → serve h marshal codec atoi server d request state
        ≡ (unauthorized (new_request_id d.request_id), state)
  unfolding serve authorize
  serve-unauthorized server d request p state e a =
      let id = new_request_id d.request_id in
      let (next, guarded) = route_handler-guard server d id request.headers request.route p e in
      guarded state
      ∙ require_permission_refused server.authenticator p id request.headers next state
          (unauthorized id) (rw a refl)

  pub serve-forbidden :
      (server : Server W) (d : Draws) (request : Request) (p : Permission) (actor : Actor)
      (credential : Text) (state : State W)
      → route_permission request.route ≡ some p
      → authenticate_request server.authenticator request.headers.authorization
        ≡ some (actor, credential)
      → has_permission actor p ≡ false
      → serve h marshal codec atoi server d request state
        ≡ (forbidden (new_request_id d.request_id), state)
  unfolding serve authorize
  serve-forbidden server d request p actor credential state e a f =
      let id = new_request_id d.request_id in
      let (next, guarded) = route_handler-guard server d id request.headers request.route p e in
      guarded state
      ∙ require_permission_refused server.authenticator p id request.headers next state
          (forbidden id) (rw (a, f) refl)
