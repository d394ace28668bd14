-- ===== src/Broker/Direct.antt =====
-- internal/broker/registry.go: Execute, the execution of a request without a confirmation.
use quantum_control.Prelude.{
  ℕ, ◌≡◌, refl, ◌⊎◌, inl, inr, true, false, Option, none, some, [], arith, if◌then◌else◌, ok, err,
  Result-cases,
}
use quantum_control.Text.{Text, text, ◌==◌}
use quantum_control.Text.Trim.{trim_space}
use quantum_control.Protocol.{OperationRequest, OperationResponse, Problem}
use quantum_control.Security.Plan.{new_id}
use quantum_control.Broker.Host.{Host}
use quantum_control.Broker.Registry.{Registry, RegisteredOperation, Compile, validate}
use quantum_control.Broker.Registry.Laws.{validate_sound}
use quantum_control.Broker.Mutations.{Outcome}
use quantum_control.Broker.Approved.{Moment, run_handler, problem_from_operation_error}
use quantum_control.Protocol.{lookup}

abbrev pub begun : Moment → OperationRequest → OperationResponse
begun m request = record {
  request_id =
      if request.request_id == [] then new_id (text "request") m.request_id else request.request_id;
  action = request.action;
  status = text "rejected";
  risk = [];
  started_at = m.started;
  finished_at = m.finished;
  audit_id = new_id (text "audit") m.audit_id;
  result = none;
  error = none;
}

module _ {W : Type 0} (host : Host W) where
  abbrev pub finish :
      Moment
      → OperationRequest
      → RegisteredOperation
      → Option (Outcome host × W)
      → Option (OperationResponse × W)
  finish m request operation none = none
  finish m request operation (some ((result, none), w)) = some (
    record (begun m request) {
      risk = operation.definition.risk;
      status = text "completed";
      result = result;
    },
    w,
  )
  finish m request operation (some ((result, some e), w)) = some (
    record (begun m request) {
      risk = operation.definition.risk;
      status = text "failed";
      result = result;
      error = some (problem_from_operation_error e);
    },
    w,
  )

  module _ (compile : Compile) (quote : Text → Text) where
    -- Registry.Execute
    unfoldable pub execute :
        ℕ → Moment → Registry → OperationRequest → W → Option (OperationResponse × W)
    execute fuel m r request w = elim (validate compile quote r request true) [
      | err p ↦ some (record (begun m request) { error = some p }, w)
      | ok operation ↦
          finish m request operation (run_handler host fuel r operation.handler request w)
    ]

    -- Without a confirmation nothing runs that requires one: Execute either rejects the request with
    -- the problem that the validation found and leaves the host as it was, or runs the handler of a
    -- catalog entry that is implemented and requires no confirmation.
    pub execute_guarded :
        (fuel : ℕ) (m : Moment) (r : Registry) (request : OperationRequest) (w w' : W)
        (response : OperationResponse)
        → execute fuel m r request w ≡ some (response, w')
        → ((p : Problem) × (validate compile quote r request true ≡ err p)
            × (response ≡ record (begun m request) { error = some p })
            × (w' ≡ w))
          ⊎ ((operation : RegisteredOperation) × (lookup (trim_space request.action) r.operations
                ≡ some operation)
              × (operation.definition.implemented ≡ true)
              × (operation.definition.requires_confirmation ≡ false)
              × (finish m request operation (run_handler host fuel r operation.handler request w)
                  ≡ some (response, w')))
    unfolding execute
    execute_guarded fuel m r request w w' response e =
        elim (Result-cases (validate compile quote r request true)) [
          | inr (p, v) ↦ inl (p, v, ground arith, ground arith)
          | inl (operation, v) ↦
              let sound = validate_sound compile quote r request true operation v in
              inr (operation, sound.0, sound.1, sound.2 refl, rw (execute, v) at e)
        ]
