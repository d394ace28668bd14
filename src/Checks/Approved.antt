-- ===== src/Checks/Approved.antt =====
-- The execution of an approved plan at concrete inputs.
use quantum_control.Prelude.{
  ◌+◌, ◌≡◌, refl, sym, ap, ◌∙◌, ◌≢◌, ◌⊎◌, true, false, Option, none, some, [], ◌∷◌,
}
use quantum_control.Text.{Text, text, ◌==◌, eq_iff}
use quantum_control.Text.Trim.{trim_space}
use mathlib.Core.Bool.{false≢true}
use quantum_control.Text.Hex
use quantum_control.Text.Case.{to_lower, equal_fold}
use quantum_control.Text.Order.{text_lt}
use quantum_control.Text.Sort.{contains, sort_by}
use quantum_control.Clock.{is_zero, zero_time}
use quantum_control.Protocol.{OperationResponse, Problem, ParameterDefinition, lookup, insert}
use quantum_control.Security.Types.{operation_mutate}
use quantum_control.Security.Actor.{has_permission}
use quantum_control.Security.Digest.{decode_sha256}
use quantum_control.Security.Plan.{verify_plan_digest, plan_digest, draft_plan, build, new_id}
use quantum_control.Security.Auth.{Authenticator}
use quantum_control.Security.Grants.{
  Disk, draft_grant, issue, consume, select_grant, mark_used, check_grant, save, prepare_file,
  already_exists,
}
use quantum_control.Security.Grants.History.{Stored, run, step}
use quantum_control.Broker.Registry.{
  Registry, RegisteredOperation, run_transaction, Compile, validate, check_parameters, check_names,
  validate_parameter,
}
use quantum_control.Broker.Mutations.{
  run_service_transaction, run_action, apply_service_action, wait_for, poll, reached,
  expected_active_state, state_value,
}
use quantum_control.Broker.Approved.{
  Moment, Handled, handle_execute_approved, execute_approved, validate_approved_plan,
  exact_plan_parameters, authenticate_actor, run_handler, reject_approved,
}
use quantum_control.Broker.Approved.Laws.{
  IsRefused, IsExecuted, handle_execute_approved_guarded, token_executes_once,
}
use quantum_control.Checks.Data.{sha, service_actor, entropy, marshal}
use quantum_control.Checks.Plans.{built}
use quantum_control.Checks.Grants.{
  calls, encode, confirmed, spent, response, later, between, between-IsDated, later_dated,
}
use quantum_control.Checks.Broker.{machine, idle}

abbrev pub compile : Compile
compile p = some (λ v. true)

abbrev pub quote : Text → Text
quote t = t

abbrev parameter : Text → ParameterDefinition
parameter name = record {
  name = name;
  description = [];
  required = true;
  pattern = [];
  allowed_values = none;
}

abbrev pub restart_operation : RegisteredOperation
restart_operation = record {
  definition = record {
    action = text "service.restart";
    summary = [];
    risk = text "high";
    requires_confirmation = true;
    implemented = true;
    parameters = parameter (text "unit") ∷ parameter (text "mode") ∷ [];
  };
  handler = run_transaction (text "service.restart");
}

abbrev pub registry : Registry
registry = record {
  operations = (text "service.restart", restart_operation) ∷ [];
  service_targets = (text "a.service", []) ∷ [];
  transaction_timeout = 1000;
  poll_interval = 10;
}

abbrev actors : Option Authenticator
actors = some (λ t. some (record service_actor { permissions = operation_mutate ∷ [] }))

abbrev pub moment : Moment
moment = record {
  started = later;
  now = later;
  finished = later;
  audit_id = entropy;
  request_id = entropy;
}

abbrev file : Disk
file = some (1 ∷ 10 ∷ [])

abbrev outcome : Option (Handled (machine true) sha marshal compile quote)
outcome =
    handle_execute_approved (machine true) sha marshal compile quote 3 encode moment calls later
      moment registry actors built response.token (text "key") confirmed file idle

abbrev answer_of :
    Option (Handled (machine true) sha marshal compile quote) → Option OperationResponse
answer_of none = none
answer_of (some x) = x.0

executed : outcome ≡ some (answer_of outcome, spent, file, (2, text "active"))
unfolding handle_execute_approved execute_approved validate_approved_plan exact_plan_parameters
    authenticate_actor run_handler validate check_parameters check_names validate_parameter lookup
    insert run_service_transaction run_action apply_service_action wait_for poll reached
    expected_active_state state_value consume select_grant mark_used check_grant draft_grant
    verify_plan_digest build plan_digest draft_plan trim_space text ◌==◌ equal_fold Hex.encode
    Hex.decode sort_by text_lt new_id has_permission contains already_exists save prepare_file
    decode_sha256 to_lower is_zero zero_time
executed = refl

handle_execute_approved_guarded_example :
    IsRefused
      (machine true)
      sha
      marshal
      compile
      quote
      moment
      built
      confirmed
      spent
      file
      file
      idle
      (2, text "active")
      (answer_of outcome)
    ⊎ IsExecuted
        (machine true)
        sha
        marshal
        compile
        quote
        3
        encode
        moment
        calls
        later
        moment
        registry
        actors
        built
        response.token
        (text "key")
        confirmed
        spent
        file
        file
        idle
        (2, text "active")
        (answer_of outcome)
handle_execute_approved_guarded_example =
    handle_execute_approved_guarded (machine true) sha marshal compile quote 3 encode registry
      actors moment calls later moment built response.token (text "key") confirmed spent file file
      idle (2, text "active") (answer_of outcome) executed

abbrev status_of : Option OperationResponse → Text
status_of none = []
status_of (some x) = x.status

completed : (status_of (answer_of outcome) == text "rejected") ≡ false
unfolding handle_execute_approved execute_approved validate_approved_plan exact_plan_parameters
    authenticate_actor run_handler validate check_parameters check_names validate_parameter lookup
    insert run_service_transaction run_action apply_service_action wait_for poll reached
    expected_active_state state_value consume select_grant mark_used check_grant draft_grant
    verify_plan_digest build plan_digest draft_plan trim_space text ◌==◌ equal_fold Hex.encode
    Hex.decode sort_by text_lt new_id has_permission contains already_exists save prepare_file
    decode_sha256 to_lower is_zero zero_time
completed = refl

not_refused : (p : Problem) → answer_of outcome ≢ some (reject_approved moment built p)
not_refused p e = false≢true (sym completed ∙ (eq_iff _ _).1 (ap status_of e))

abbrev afterwards : Stored
afterwards = run sha marshal encode (record { store = spent; disk = file }) between

abbrev again : Option (Handled (machine true) sha marshal compile quote)
again =
    handle_execute_approved (machine true) sha marshal compile quote 3 encode moment calls
      (later + 1) moment registry actors built response.token (text "key") afterwards.store
      afterwards.disk idle

repeated : again ≡ some (answer_of again, afterwards.store, afterwards.disk, idle)
unfolding handle_execute_approved execute_approved validate_approved_plan exact_plan_parameters
    authenticate_actor run_handler validate check_parameters check_names validate_parameter lookup
    insert run_service_transaction run_action apply_service_action wait_for poll reached
    expected_active_state state_value consume select_grant mark_used check_grant draft_grant
    verify_plan_digest build plan_digest draft_plan trim_space text ◌==◌ equal_fold Hex.encode
    Hex.decode sort_by text_lt new_id has_permission contains already_exists save prepare_file
    decode_sha256 to_lower is_zero zero_time run step issue
repeated = refl

token_executes_once_example :
    IsRefused
      (machine true)
      sha
      marshal
      compile
      quote
      moment
      built
      afterwards.store
      afterwards.store
      afterwards.disk
      afterwards.disk
      idle
      idle
      (answer_of again)
token_executes_once_example =
    token_executes_once (machine true) sha marshal compile quote 3 encode registry actors moment
      calls later moment built response.token (text "key") confirmed spent file file idle
      (2, text "active") (answer_of outcome) between moment calls (later + 1) moment built
      (text "key") afterwards.store afterwards.disk idle idle (answer_of again) later_dated executed
      not_refused between-IsDated repeated
