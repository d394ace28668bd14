-- ===== src/Broker/Registry.antt =====
-- internal/broker/registry.go: the catalog of operations and the validation of requests. A handler
-- is named by what it runs; regexp.Compile and strconv.Quote are arguments.
pub mod Laws
use quantum_control.Prelude.{
  ℕ, Bool, true, false, ◌&&◌, Option, none, some, List, [], ◌∷◌, ◌++◌, map, if◌then◌else◌, Result,
  ok, err, ◌>>=◌, ◌>>◌, require, refuse, or_fail,
}
use quantum_control.Text.{Text, text, ◌==◌}
use quantum_control.Text.Trim.{trim_space}
use quantum_control.Text.Sort.{contains, sort_by}
use quantum_control.Protocol.{
  OperationDefinition, ParameterDefinition, OperationRequest, OperationPlan, Problem, StringMap,
  lookup, insert, risk_read_only,
}

pub data Handler : Type 0 where
  read_snapshot read_status : Handler
  run_transaction : Text → Handler

pub record RegisteredOperation : Type 0 where
  pub definition : OperationDefinition
  pub handler : Handler

-- The clock, the probe, the mutator and the health checker are the host's. A target is its health URL.
pub record Registry : Type 0 where
  pub operations : List (Text × RegisteredOperation)
  pub service_targets : List (Text × Text)
  pub transaction_timeout : ℕ
  pub poll_interval : ℕ

-- Registry.register
abbrev pub register : OperationDefinition → Handler → Registry → Registry
register definition handler r = record r {
  operations =
      insert definition.action (record { definition = definition; handler = handler }) r.operations;
}

-- serviceUnitPattern.String()
abbrev pub service_unit_pattern : Text
service_unit_pattern = text "^[A-Za-z0-9][A-Za-z0-9_.@:-]{0,127}$"

abbrev pub snapshot_definition : OperationDefinition
snapshot_definition = record {
  action = text "system.snapshot";
  summary = text "Read a bounded local system summary";
  risk = risk_read_only;
  requires_confirmation = false;
  implemented = true;
  parameters = [];
}

abbrev pub status_definition : OperationDefinition
status_definition = record {
  action = text "service.status";
  summary = text "Read systemd unit state";
  risk = risk_read_only;
  requires_confirmation = false;
  implemented = true;
  parameters =
      record {
        name = text "unit";
        description = text "Exact systemd unit name";
        required = true;
        pattern = service_unit_pattern;
        allowed_values = none;
      }
      ∷ [];
}

-- NewRegistry
unfoldable pub new_registry : Registry
new_registry = register status_definition read_status (
    register snapshot_definition read_snapshot (record {
      operations = [];
      service_targets = [];
      transaction_timeout = 0;
      poll_interval = 0;
    }))

-- Registry.Catalog; a definition's copy is the definition.
unfoldable pub catalog : Registry → List OperationDefinition
catalog r = sort_by (λ d. d.action) (map (λ entry. entry.1.definition) r.operations)

abbrev pub problem : Text → Text → Problem
problem code message = record { code = code; message = message }

abbrev pub is_blank : Option Text → Bool
is_blank none = true
is_blank (some v) = trim_space v == []

-- A parameter's pattern: `none` if it does not compile.
abbrev pub Compile : Type 0
Compile = Text → Option (Text → Bool)

module _ (compile : Compile) (quote : Text → Text) where
  pub invalid_parameters : Text → Text → Problem
  invalid_parameters name reason =
      problem (text "invalid_parameters") (text "parameter " ++ (quote name ++ reason))

  abbrev check_pattern :
      ParameterDefinition → Text → Option (Text → Bool) → Result Problem (Unit {0})
  check_pattern d value none =
      err (problem (text "policy_error") (text "operation parameter policy is invalid"))
  check_pattern d value (some matches) =
      require (matches value) (invalid_parameters d.name (text " does not match policy"))

  abbrev check_allowed : ParameterDefinition → Text → Option (List Text) → Result Problem (Unit {0})
  check_allowed d value none = ok tt
  check_allowed d value (some values) =
      require (contains value values) (invalid_parameters d.name (text " is not an allowed value"))

  -- validateParameter
  unfoldable pub validate_parameter : ParameterDefinition → Text → Result Problem (Unit {0})
  validate_parameter d value =
      (if d.pattern == [] then ok tt else check_pattern d value (compile d.pattern))
      >> check_allowed d value d.allowed_values

  abbrev pub check_present : ParameterDefinition → Option Text → Result Problem (Unit {0})
  check_present d none = ok tt
  check_present d (some value) = validate_parameter d value

  -- The loop of validate over the definition's parameters.
  unfoldable pub check_parameters : List ParameterDefinition → StringMap → Result Problem (Unit {0})
  check_parameters [] given = ok tt
  check_parameters (d ∷ ds) given = do
    refuse (d.required && is_blank (lookup d.name given))
        (invalid_parameters d.name (text " is required"))
    check_present d (lookup d.name given)
    check_parameters ds given

  -- The loop of validate over the request's parameters; `names` are those of the definition.
  unfoldable pub check_names : List Text → StringMap → Result Problem (Unit {0})
  check_names names [] = ok tt
  check_names names ((name, value) ∷ rest) = do
    require (contains name names) (invalid_parameters name (text " is not accepted"))
    check_names names rest

  -- Registry.validate
  unfoldable pub validate : Registry → OperationRequest → Bool → Result Problem RegisteredOperation
  validate r request execution = do
    let action = trim_space request.action
    refuse (action == []) (problem (text "invalid_action") (text "action is required"))
    operation ←
        or_fail (lookup action r.operations)
          (problem (text "unknown_action") (text "action is not allowlisted"))
    require operation.definition.implemented
        (problem (text "not_implemented") (text "action is not implemented"))
    refuse (execution && operation.definition.requires_confirmation) (
        problem (text "confirmation_verifier_required") (
          text
            "confirmation-required operation execution requires the approved execution endpoint"))
    check_parameters operation.definition.parameters request.parameters
    check_names (map (λ d. d.name) operation.definition.parameters) request.parameters
    ok operation

  abbrev no_definition : OperationDefinition
  no_definition = record {
    action = [];
    summary = [];
    risk = [];
    requires_confirmation = false;
    implemented = false;
    parameters = [];
  }

  abbrev plan_of : OperationRequest → Result Problem RegisteredOperation → OperationPlan
  plan_of request (ok operation) = record {
    request = request;
    definition = operation.definition;
    valid = true;
    requires_confirmation = operation.definition.requires_confirmation;
    warnings = [];
    error = none;
  }
  plan_of request (err p) = record {
    request = request;
    definition = no_definition;
    valid = false;
    requires_confirmation = false;
    warnings = [];
    error = some p;
  }

  -- Registry.Plan
  unfoldable pub plan : Registry → OperationRequest → OperationPlan
  plan r request = plan_of request (validate r request false)
