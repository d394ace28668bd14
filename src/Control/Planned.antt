-- ===== src/Control/Planned.antt =====
-- The plan cache of the server over any sequence of requests.
use quantum_control.Prelude.{
  ◌≡◌, refl, sym, ap, subst, ◌∙◌, inl, inr, true, Option, none, some, List, [], ◌∷◌, Option-cases,
  Result, ok, err, Result-cases,
}
use quantum_control.Text.{Text}
use quantum_control.Prelude.Int.{ℤ}
use quantum_control.Clock.{Time}
use quantum_control.Protocol
use quantum_control.Protocol.{
  OperationRequest, OperationResponse, OperationDefinition, lookup, insert,
}
use quantum_control.Security.Types.{
  OperationPlan, Permission, operation_plan, control_read, inventory_read, operation_catalog,
  operation_execute, operation_mutate, audit_read, confirm,
}
use quantum_control.Security.Actor.{has_permission}
use quantum_control.Security.Cache.{PlanCache, new_plan_cache, purge_expired, put, get}
use quantum_control.Security.Digest.{Sha256}
use quantum_control.Security.Plan.{PlanEncoder, PlanError, build}
use quantum_control.Security.Plan.Laws.{build_verifies}
use quantum_control.Security.Audit.{AuditCodec}
use quantum_control.Control.Server.{
  Server, State, Draws, Context, Reply, Decoded, decode_body, new_request_id, at_world,
}
use quantum_control.Control.Auth.{Headers, require_permission}
use quantum_control.Control.Operations.{
  build_plan, planned, prepare_request, handle_ready, handle_info, handle_operations,
  handle_system_status, handle_service_status, handle_plan, handle_execute,
}
use quantum_control.Control.Approvals.{
  ApprovedExecutionRequest, ConfirmationRequest, approved_request, confirmation_request,
  handle_approved_execute, handle_confirmation,
}
use quantum_control.Control.Reading.{
  AuditQuery, handle_audit_query, handle_audit_integrity, handle_components, handle_component,
}
use quantum_control.Control.Routes.{
  Route, get_root, get_health, get_ready, get_info, get_operations, post_plan, post_execute,
  post_execute_approved, get_system_status, get_service_status, get_audit, get_audit_integrity,
  post_confirmations, get_components, get_component, Request, route_handler, serve, serve_all,
}
use quantum_control.Control.Kept.{
  append_audit-plans, executed-plans, execute_plan-plans, confirm_plan-plans, readiness-plans,
  catalog_reply-plans, read_state-plans, snapshot_reply-plans, component_reply-plans,
}
use quantum_control.Control.Guards.{IsAdmitted, authorize-cases}
use quantum_control.Control.Cached.{
  IsCached, AreCached, purge-AreCached, insert-AreCached, lookup-AreCached,
}

kept :
    (h : Sha256) (marshal : PlanEncoder) (c c' : PlanCache)
    → c' ≡ c
    → AreCached h marshal c
    → AreCached h marshal c'
kept h marshal c c' e = subst (AreCached h marshal) (sym e)

module _ {W : Type 0} (h : Sha256) (marshal : PlanEncoder) (codec : AuditCodec)
    (atoi : Text → Option ℤ) (server : Server W) (d : Draws) where
  -- The cache that a reply leaves is as good as the one before.
  abbrev Good : Reply × State W → Type 0
  Good left = AreCached h marshal left.1.plans

  -- Behind its permission a handler keeps the cache good if it does so for admitted requests.
  guarded :
      (p : Permission) (headers : Headers) (next : Context → State W → Reply × State W)
      (state : State W)
      → ((context : Context)
          → IsAdmitted server.authenticator p (new_request_id d.request_id) headers context
          → Good (next context state))
      → AreCached h marshal state.plans
      → Good (
          require_permission server.authenticator p
            (new_request_id d.request_id)
            headers
            next
            state)
  unfolding require_permission
  guarded p headers next state keeps good =
      elim (authorize-cases server.authenticator p (new_request_id d.request_id) headers) [
        | inl (context, a, admitted) ↦ rw (require_permission, a) (keeps context admitted)
        | inr (reply, a, refusal) ↦ rw (require_permission, a) good
      ]

  plan-keeps :
      (body : Decoded OperationRequest) (context : Context) (state : State W)
      → has_permission context.actor operation_plan ≡ true
      → AreCached h marshal state.plans
      → Good (handle_plan h codec marshal server d body context state)
  unfolding handle_plan put
  plan-keeps body context state permitted good =
      elim (Result-cases (decode_body context.request_id (λ e. e) body)) [
        | inr (reply, b) ↦ rw (handle_plan, b) good
        | inl (request, b) ↦
            rw (handle_plan, b)
              (asked (server.broker.plan (prepare_request context request) state.world))
      ]
    where
      built :
          (w : W) (result : Result PlanError OperationPlan) (plan : Protocol.OperationPlan)
          → build h marshal server.ttl d.built d.plan_id context.actor context.session_id plan
            ≡ result
          → Good (planned h codec d context (at_world state w) result)
      built w (err e) plan run = good
      built w (ok made) plan run =
          let verified =
            build_verifies h marshal server.ttl d.built d.plan_id context.actor context.session_id
              plan made run in
          subst (AreCached h marshal) (sym (append_audit-plans h codec d.first _ _)) (
            insert-AreCached h marshal made.id made _
              (record {
                key = refl;
                schema = verified.1;
                verified = verified.0;
                permitted = ap (λ a. has_permission a operation_plan) verified.4 ∙ permitted;
              })
              (purge-AreCached h marshal d.cached state.plans good))

      asked :
          (result : Option Protocol.OperationPlan × W)
          → Good (build_plan h codec marshal server d context state result)
      asked (none, w) = good
      asked (some plan, w) = built w _ plan refl

  approved-keeps :
      (body : Decoded ApprovedExecutionRequest) (context : Context) (state : State W)
      → AreCached h marshal state.plans
      → Good (handle_approved_execute h codec server d body context state)
  unfolding handle_approved_execute get
  approved-keeps body context state good =
      elim (Result-cases (approved_request context.request_id server.approval body)) [
        | inr (reply, r) ↦ rw (handle_approved_execute, r) good
        | inl ((broker, plan_id, token), r) ↦
            let purged = purge_expired d.cached state.plans in
            rw (handle_approved_execute, r)
              (subst (AreCached h marshal)
                (sym (
                  execute_plan-plans h codec broker d context token
                    (record state { plans = purged }) (lookup plan_id purged)))
                (purge-AreCached h marshal d.cached state.plans good))
      ]

  confirmation-keeps :
      (body : Decoded ConfirmationRequest) (context : Context) (state : State W)
      → AreCached h marshal state.plans
      → Good (handle_confirmation h codec server d body context state)
  unfolding handle_confirmation get
  confirmation-keeps body context state good =
      elim (Result-cases (confirmation_request context.request_id server.approval body)) [
        | inr (reply, r) ↦ rw (handle_confirmation, r) good
        | inl ((broker, plan_id), r) ↦
            let purged = purge_expired d.cached state.plans in
            rw (handle_confirmation, r)
              (subst (AreCached h marshal)
                (sym (
                  confirm_plan-plans h codec broker d context (record state { plans = purged })
                    (lookup plan_id purged)))
                (purge-AreCached h marshal d.cached state.plans good))
      ]

  execute-plans :
      (body : Decoded OperationRequest) (context : Context) (state : State W)
      → (handle_execute h codec server d body context state).1.plans ≡ state.plans
  unfolding handle_execute
  execute-plans body context state =
      elim (Result-cases (decode_body context.request_id (λ e. e) body)) [
        | inr (reply, b) ↦ rw (handle_execute, b) refl
        | inl (given, b) ↦
            rw (handle_execute, b)
              (executed-plans h codec d context (prepare_request context given) state _)
      ]

  audit_query-plans :
      (q : AuditQuery) (context : Context) (state : State W)
      → (handle_audit_query atoi q context state).1.plans ≡ state.plans
  unfolding handle_audit_query
  audit_query-plans q context state = elim (Option-cases state.audit) [
    | inl e ↦ rw (handle_audit_query, e) refl
    | inr (store, e) ↦ rw (handle_audit_query, e) refl
  ]

  audit_integrity-plans :
      (context : Context) (state : State W)
      → (handle_audit_integrity context state).1.plans ≡ state.plans
  unfolding handle_audit_integrity
  audit_integrity-plans context state = elim (Option-cases state.audit) [
    | inl e ↦ rw (handle_audit_integrity, e) refl
    | inr (store, e) ↦ rw (handle_audit_integrity, e) refl
  ]

  -- Every route keeps the cache good.
  route-keeps :
      (headers : Headers) (route : Route) (state : State W)
      → AreCached h marshal state.plans
      → Good (
          route_handler h marshal codec atoi server d
            (new_request_id d.request_id)
            headers
            route
            state)
  unfolding handle_ready handle_info handle_operations handle_system_status handle_service_status
      handle_components handle_component
  route-keeps headers get_root state good = good
  route-keeps headers get_health state good = good
  route-keeps headers get_ready state good =
      kept h marshal state.plans _ (readiness-plans (new_request_id d.request_id) state _) good
  route-keeps headers get_info state good =
      guarded control_read headers (λ context. handle_info server) state (λ context a. good) good
  route-keeps headers get_operations state good =
      guarded operation_catalog headers (handle_operations server) state
        (λ context a.
          kept h marshal state.plans _ (catalog_reply-plans context.request_id state _) good)
        good
  route-keeps headers (post_plan body) state good =
      guarded operation_plan headers (handle_plan h codec marshal server d body) state
        (λ context a. plan-keeps body context state a.permitted good) good
  route-keeps headers (post_execute body) state good =
      guarded operation_execute headers (handle_execute h codec server d body) state
        (λ context a. kept h marshal state.plans _ (execute-plans body context state) good) good
  route-keeps headers (post_execute_approved body) state good =
      guarded operation_mutate headers (handle_approved_execute h codec server d body) state
        (λ context a. approved-keeps body context state good) good
  route-keeps headers get_system_status state good =
      guarded control_read headers (handle_system_status server) state
        (λ context a. kept h marshal state.plans _ (read_state-plans context state _) good) good
  route-keeps headers (get_service_status unit) state good =
      guarded control_read headers (handle_service_status server unit) state
        (λ context a. kept h marshal state.plans _ (read_state-plans context state _) good) good
  route-keeps headers (get_audit q) state good =
      guarded audit_read headers (handle_audit_query atoi q) state
        (λ context a. kept h marshal state.plans _ (audit_query-plans q context state) good) good
  route-keeps headers get_audit_integrity state good =
      guarded audit_read headers handle_audit_integrity state
        (λ context a. kept h marshal state.plans _ (audit_integrity-plans context state) good) good
  route-keeps headers (post_confirmations body) state good =
      guarded confirm headers (handle_confirmation h codec server d body) state
        (λ context a. confirmation-keeps body context state good) good
  route-keeps headers get_components state good =
      guarded inventory_read headers (handle_components server) state
        (λ context a.
          kept h marshal state.plans _ (snapshot_reply-plans context.request_id state _) good)
        good
  route-keeps headers (get_component name) state good =
      guarded inventory_read headers (handle_component server name) state
        (λ context a.
          kept h marshal state.plans _ (component_reply-plans context.request_id state _) good)
        good

module _ {W : Type 0} (h : Sha256) (marshal : PlanEncoder) (codec : AuditCodec)
    (atoi : Text → Option ℤ) (server : Server W) where
  serve_all-AreCached :
      (history : List (Draws × Request)) (state : State W)
      → AreCached h marshal state.plans
      → AreCached h marshal (serve_all h marshal codec atoi server history state).plans
  unfolding serve_all serve
  serve_all-AreCached [] state good = good
  serve_all-AreCached ((d, request) ∷ rest) state good =
      serve_all-AreCached rest (serve h marshal codec atoi server d request state).1
        (route-keeps h marshal codec atoi server d request.headers request.route state good)

  -- A server that starts with an empty cache finds, after any requests, no plan under an ID but one
  -- with that ID, in the current schema, whose digest verifies, and that an actor with the
  -- permission to plan has made. So these are the only plans that it sends to the broker for a
  -- confirmation or an execution.
  pub serve_all-IsCached :
      (history : List (Draws × Request)) (state : State W) (now : Time) (id : Text)
      (plan : OperationPlan)
      → state.plans ≡ new_plan_cache
      → (get now id (serve_all h marshal codec atoi server history state).plans).0 ≡ some plan
      → IsCached h marshal (id, plan)
  unfolding get
  serve_all-IsCached history state now id plan empty found =
      let left = serve_all h marshal codec atoi server history state in
      lookup-AreCached h marshal id plan (purge_expired now left.plans)
        (purge-AreCached h marshal now left.plans
          (serve_all-AreCached history state (subst (AreCached h marshal) (sym empty) tt)))
        found
