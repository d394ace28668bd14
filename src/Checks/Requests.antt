-- ===== src/Checks/Requests.antt =====
-- The validation of a request at concrete inputs.
use quantum_control.Prelude.{◌≡◌, refl, ◌⊎◌, true, false, Option, some, map, ok, err, All}
use quantum_control.Text.{text, ◌==◌}
use quantum_control.Text.Trim.{trim_space}
use quantum_control.Text.Sort.{contains}
use quantum_control.Protocol.{OperationRequest, OperationResponse, Problem, lookup}
use quantum_control.Broker.Registry.{
  RegisteredOperation, validate, check_parameters, check_names, validate_parameter,
}
use quantum_control.Broker.Registry.Laws.{IsGiven, validate_sound}
use quantum_control.Broker.Approved.{run_handler}
use quantum_control.Broker.Direct.{begun, finish, execute, execute_guarded}
use quantum_control.Checks.Data.{broker_plan}
use quantum_control.Checks.Approved.{compile, quote, registry, restart_operation, moment}
use quantum_control.Checks.Broker.{Machine, machine, idle}

abbrev request : OperationRequest
request = broker_plan.request

accepted : validate compile quote registry request false ≡ ok restart_operation
unfolding validate check_parameters check_names validate_parameter lookup contains trim_space text
    ◌==◌
accepted = refl

validate_sound_example :
    (lookup (trim_space request.action) registry.operations ≡ some restart_operation)
    × (restart_operation.definition.implemented ≡ true)
    × (false ≡ true → restart_operation.definition.requires_confirmation ≡ false)
    × All (IsGiven compile quote request.parameters) restart_operation.definition.parameters
    × All
        (λ e. contains e.0 (map (λ d. d.name) restart_operation.definition.parameters) ≡ true)
        request.parameters
validate_sound_example =
    validate_sound compile quote registry request false restart_operation accepted

-- The same request sent to the direct endpoint.
abbrev direct : Option (OperationResponse × Machine)
direct = execute (machine true) compile quote 3 moment registry request idle

abbrev refusal : Problem
refusal = record {
  code = text "confirmation_verifier_required";
  message =
      text "confirmation-required operation execution requires the approved execution endpoint";
}

abbrev refused : OperationResponse
refused = record (begun moment request) { error = some refusal }

refused_eq : direct ≡ some (refused, idle)
unfolding execute validate check_parameters check_names validate_parameter lookup contains
    trim_space text ◌==◌
refused_eq = refl

execute_guarded_example :
    ((p : Problem) × (validate compile quote registry request true ≡ err p)
      × (refused ≡ record (begun moment request) { error = some p })
      × (idle ≡ idle))
    ⊎ ((operation : RegisteredOperation) × (lookup (trim_space request.action) registry.operations
          ≡ some operation)
        × (operation.definition.implemented ≡ true)
        × (operation.definition.requires_confirmation ≡ false)
        × (finish
              (machine true)
              moment
              request
              operation
              (run_handler (machine true) 3 registry operation.handler request idle)
            ≡ some (refused, idle)))
execute_guarded_example =
    execute_guarded (machine true) compile quote 3 moment registry request idle idle refused
      refused_eq
