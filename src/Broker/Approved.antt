-- ===== src/Broker/Approved.antt =====
-- internal/broker: the execution of an approved plan (mutations.go), the authentication of a forwarded
-- actor (approval.go), and the handler between them (server.go) behind the decoding of its envelope.
pub mod Laws
use quantum_control.Prelude.{
  ℕ, zero, suc, ◌+◌, ◌-◌, ◌*◌, ◌%◌, ◌^◌, ◌≤◌, ◌<◌, min, ◌≡◌, refl, sym, ap, ap₂, subst, ◌∙◌, ◌≢◌,
  ◌↔◌, ◌⊎◌, inl, inr, Bool, true, false, ◌&&◌, ◌||◌, not, Option, none, some, List, [], ◌∷◌, ◌++◌,
  map, reverse, arith, ltb, leb, eqb, eqb_iff, eqb_refl, if◌then◌else◌, Bool-cases, Option-cases,
  Bool-ext, Result, ok, err, ◌>>=◌, ◌>>◌, require, refuse, or_fail, Result-cases, ok-injective,
  some_inj, length, take, All, All-append, All-map, length-append, length-take,
}
use quantum_control.Text.{Text, text, ◌==◌, eq_iff, eq_refl, eq_comm}
use quantum_control.Text.Trim.{trim_space}
use quantum_control.Clock.{Time, second, minute, is_zero, after, add, sub}
use quantum_control.Prelude.Int.{pos, above}
use quantum_control.Protocol
use quantum_control.Protocol.{
  OperationRequest, OperationResponse, Problem, StringMap, Value, string, Fields, lookup, insert,
  value_or_empty,
}
use quantum_control.Security.Types.{
  Actor, Parameter, OperationPlan, plan_schema, actor_tci, operation_mutate,
}
use quantum_control.Security.Actor.{has_permission}
use quantum_control.Security.Digest.{Sha256}
use quantum_control.Security.Plan.{Entropy, PlanEncoder, new_id, verify_plan_digest}
use quantum_control.Security.Auth.{Authenticator}
use quantum_control.Security.Grants.{GrantStore, GrantError, Disk, Calls, StoreEncoder, consume}
use quantum_control.Security.Types.{ConfirmationGrant}
use quantum_control.Broker.Host.{Host}
use quantum_control.Broker.Registry.{
  Registry, RegisteredOperation, Handler, read_snapshot, read_status, run_transaction, Compile,
  problem, validate,
}
use quantum_control.Broker.Mutations.{
  OperationError, operation_error, other_error, Outcome, run_service_transaction,
}

abbrev is_some {ℓ} : {A : Type ℓ} → Option A → Bool
is_some none = false
is_some (some a) = true

-- The loop of exactPlanParameters, with the map that it has written.
unfoldable pub exact_plan_parameters : List Parameter → StringMap → Result Problem StringMap
exact_plan_parameters [] result = ok result
exact_plan_parameters (p ∷ ps) result = do
  let name = trim_space p.name
  refuse (name == [])
      (problem (text "invalid_plan") (text "operation plan contains an empty parameter name"))
  refuse (is_some (lookup name result))
      (problem (text "invalid_plan") (text "operation plan contains duplicate parameters"))
  exact_plan_parameters ps (insert name p.value result)

abbrev pub plan_request : OperationPlan → StringMap → OperationRequest
plan_request plan parameters = record {
  request_id = plan.request_id;
  action = plan.action;
  actor = plan.actor.id;
  parameters = parameters;
  confirmation = [];
}

module _ (h : Sha256) (marshal : PlanEncoder) (compile : Compile) (quote : Text → Text) where
  -- Registry.ValidateApprovedPlan
  unfoldable pub validate_approved_plan :
      Time → Registry → OperationPlan → Result Problem (Unit {0})
  validate_approved_plan now r plan = do
    refuse (not (plan.schema == plan_schema) || not plan.valid || not plan.requires_confirmation)
        (problem (text "invalid_plan") (text "operation plan is not executable"))
    require (verify_plan_digest h marshal plan)
        (problem (text "invalid_plan_digest") (text "operation plan digest verification failed"))
    refuse
        (trim_space plan.id == []
          || trim_space plan.actor.id == []
          || trim_space plan.session_id == [])
        (problem (text "invalid_plan")
          (text "operation plan identity or correlation data is missing"))
    refuse
        (is_zero plan.created_at
          || is_zero plan.expires_at
          || not (after plan.expires_at plan.created_at))
        (problem (text "invalid_plan_time") (text "operation plan time bounds are invalid"))
    refuse (after plan.created_at (add now (pos (30 * second))) || not (after plan.expires_at now))
        (problem (text "expired_plan") (text "operation plan is stale or expired"))
    refuse (above (sub plan.expires_at plan.created_at) (15 * minute))
        (problem (text "invalid_plan_time") (text "operation plan lifetime exceeds policy"))
    parameters ← exact_plan_parameters plan.parameters []
    operation ← validate compile quote r (plan_request plan parameters) false
    refuse
        (not operation.definition.requires_confirmation
          || not (operation.definition.risk == plan.risk))
        (problem (text "stale_plan_policy")
          (text "operation policy changed after the plan was created"))

-- problemFromOperationError
unfoldable pub problem_from_operation_error : OperationError → Problem
problem_from_operation_error (operation_error code message) = problem code message
problem_from_operation_error (other_error message) = problem (text "operation_failed") message

-- SecurityBoundary.authenticateActor; `none` is a nil authenticator, and an error.
unfoldable pub authenticate_actor : Option Authenticator → Text → Option Actor
authenticate_actor none token = none
authenticate_actor (some actors) raw =
    let token = trim_space raw in
    if token == [] || ltb 4096 (length token) then none else actors token

-- The clock and the random bytes of one response: its start, its validation and its end.
pub record Moment : Type 0 where
  pub started : Time
  pub now : Time
  pub finished : Time
  pub audit_id : Entropy
  pub request_id : Entropy

-- A rejected response before its end is filled in.
abbrev pub rejected : Moment → OperationPlan → OperationResponse
rejected m plan = record {
  request_id =
      if plan.request_id == [] then new_id (text "request") m.request_id else plan.request_id;
  action = plan.action;
  status = text "rejected";
  risk = [];
  started_at = m.started;
  finished_at = m.finished;
  audit_id = new_id (text "audit") m.audit_id;
  result = none;
  error = none;
}

abbrev pub reject : Moment → OperationPlan → Problem → OperationResponse
reject m plan p = record (rejected m plan) { error = some p }

-- rejectedApprovedResponse, which names the risk of the plan, with the problem of the handler.
abbrev pub reject_approved : Moment → OperationPlan → Problem → OperationResponse
reject_approved m plan p = record (rejected m plan) { risk = plan.risk; error = some p }

-- The executor that the broker lets pass.
abbrev pub may_mutate : Actor → Bool
may_mutate executor =
    not (executor.kind == actor_tci || not (has_permission executor operation_mutate))

abbrev pub forbidden : Problem
forbidden =
    problem (text "mutation_forbidden") (text "executor is not authorized for service mutations")

abbrev pub not_confirmed : Problem
not_confirmed =
    problem (text "confirmation_rejected")
      (text "confirmation grant is invalid, expired, stale, or already consumed")

abbrev fields_or_empty : Option Fields → Fields
fields_or_empty none = []
fields_or_empty (some f) = f

abbrev with_result : Actor → OperationPlan → Option Fields → Fields
with_result executor plan result = insert (text "plan_digest") (string plan.digest) (
    insert (text "plan_id") (string plan.id) (
      insert (text "plan_actor_id") (string plan.actor.id)
        (insert (text "executor_actor_id") (string executor.id) (fields_or_empty result))))

module _ {W : Type 0} (host : Host W) where
  abbrev read_outcome : Result Text Fields × W → Outcome host × W
  read_outcome (ok f, w) = ((some f, none), w)
  read_outcome (err e, w) = ((none, some (other_error e)), w)

  abbrev status_outcome : Result Text StringMap × W → Outcome host × W
  status_outcome (ok s, w) = ((some (map (λ entry. (entry.0, string entry.1)) s), none), w)
  status_outcome (err e, w) = ((none, some (other_error e)), w)

  -- The functions that NewRegistry and EnableServiceMutations register.
  unfoldable pub run_handler :
      ℕ → Registry → Handler → OperationRequest → W → Option (Outcome host × W)
  run_handler fuel r read_snapshot request w = some (read_outcome (host.snapshot w))
  run_handler fuel r read_status request w = some (
      status_outcome
        (host.service_status (value_or_empty (lookup (text "unit") request.parameters)) w))
  run_handler fuel r (run_transaction action) request w =
      run_service_transaction host fuel r action
        (value_or_empty (lookup (text "unit") request.parameters)) w

  -- The response to a run. The inner `none` is the panic of a call of a nil handler.
  abbrev pub respond :
      Moment
      → Actor
      → OperationPlan
      → RegisteredOperation
      → Option (Outcome host × W)
      → Option (Option OperationResponse × W)
  respond m executor plan operation none = none
  respond m executor plan operation (some ((result, none), w)) = some (
    some (record (rejected m plan) {
      risk = operation.definition.risk;
      status = text "completed";
      result = some (with_result executor plan result);
    }),
    w,
  )
  respond m executor plan operation (some ((result, some e), w)) = some (
    some (record (rejected m plan) {
      risk = operation.definition.risk;
      status = text "failed";
      result = some (with_result executor plan result);
      error = some (problem_from_operation_error e);
    }),
    w,
  )

  abbrev parameters_of : Result Problem StringMap → StringMap
  parameters_of (ok m) = m
  parameters_of (err p) = []

  abbrev pub run_approved :
      ℕ
      → Moment
      → Registry
      → OperationPlan
      → Actor
      → Option RegisteredOperation
      → W
      → Option (Option OperationResponse × W)
  run_approved fuel m r plan executor none w = some (none, w)
  run_approved fuel m r plan executor (some operation) w = respond m executor plan operation (
      run_handler fuel r operation.handler
        (plan_request plan (parameters_of (exact_plan_parameters plan.parameters []))) w)

  module _ (h : Sha256) (marshal : PlanEncoder) (compile : Compile) (quote : Text → Text) where
    -- Registry.ExecuteApproved
    unfoldable pub execute_approved :
        ℕ → Moment → Registry → OperationPlan → Actor → W → Option (Option OperationResponse × W)
    execute_approved fuel m r plan executor w =
        let run = run_approved fuel m r plan executor (lookup plan.action r.operations) w in
        if not (may_mutate executor)
        then some (some (reject m plan forbidden), w)
        else elim (validate_approved_plan h marshal compile quote m.now r plan) [
          | err p ↦ some (some (reject m plan p), w)
          | ok u ↦ run
        ]

    -- What the handler leaves: the response, the grants, their file and the host.
    abbrev pub Handled : Type 0
    Handled = Option OperationResponse × GrantStore × Disk × W

    abbrev pub handled : GrantStore → Disk → Option (Option OperationResponse × W) → Option Handled
    handled store disk none = none
    handled store disk (some (response, w)) = some (response, store, disk, w)

    abbrev pub behind_consume :
        ℕ
        → Moment
        → Moment
        → Registry
        → OperationPlan
        → Actor
        → W
        → Result GrantError ConfirmationGrant × GrantStore × Disk
        → Option Handled
    behind_consume fuel m n r plan executor w (ok grant, store, disk) =
        handled store disk (execute_approved fuel n r plan executor w)
    behind_consume fuel m n r plan executor w (err e, store, disk) =
        some (some (reject_approved m plan not_confirmed), store, disk, w)

    -- Server.handleExecuteApproved on a decoded envelope, with a grant store. `m` is the handler's
    -- own moment, `consumed` the clock of the consumption, and `n` the moment of ExecuteApproved.
    unfoldable pub handle_execute_approved :
        ℕ
        → StoreEncoder
        → Moment
        → Calls
        → Time
        → Moment
        → Registry
        → Option Authenticator
        → OperationPlan
        → Text
        → Text
        → GrantStore
        → Disk
        → W
        → Option Handled
    handle_execute_approved fuel encode m calls consumed n r actors plan confirmation_token
          actor_token store disk w =
        elim (authenticate_actor actors actor_token) [
          | none ↦ some (some (reject_approved m plan forbidden), store, disk, w)
          | some executor ↦
              let next = behind_consume fuel m n r plan executor w (
                consume h marshal encode calls consumed confirmation_token plan plan.actor.id
                  plan.action store disk) in
              if not (may_mutate executor)
              then some (some (reject_approved m plan forbidden), store, disk, w)
              else elim (validate_approved_plan h marshal compile quote m.now r plan) [
                | err p ↦ some (some (reject_approved m plan p), store, disk, w)
                | ok u ↦ next
              ]
        ]
