-- ===== src/Broker/Mutations.antt =====
-- internal/broker/mutations.go: the service mutations and their transaction. Polling takes fuel, one
-- unit for each round; `none` means that the fuel ran out.
pub mod Polling
pub mod Recovery
pub mod Transaction
pub mod Progress
use quantum_control.Prelude.{
  ℕ, zero, suc, ◌*◌, Bool, true, false, ◌&&◌, ◌||◌, not, Option, none, some, List, [], ◌∷◌,
  if◌then◌else◌, Result, ok, err, ◌>>=◌, ◌>>◌, require, refuse, or_fail,
}
use quantum_control.Text.{Text, text, ◌==◌}
use quantum_control.Text.Trim.{trim_space}
use quantum_control.Text.Case.{to_lower}
use quantum_control.Prelude.Int.{ℤ, below, above, pos, negsuc}
use quantum_control.Clock.{second, minute}
use quantum_control.Protocol.{
  OperationDefinition, Risk, StringMap, string, boolean, state, Fields, lookup, insert,
  value_or_empty, risk_low, risk_high,
}
use quantum_control.ServiceControl.Policy.{Policy, spec, allowed_units}
use quantum_control.Broker.Host.{Host}
use quantum_control.Broker.Registry.{Registry, run_transaction, register}

-- operationError, or the text of another error.
pub data OperationError : Type 0 where
  operation_error : Text → Text → OperationError
  other_error : Text → OperationError

pub data EnableError : Type 0 where
  mutator_required health_required invalid_timeout invalid_interval : EnableError
  lost_target : Text → EnableError

-- The loop over the allowed units.
unfoldable pub add_targets :
    Policy → List Text → List (Text × Text) → Result EnableError (List (Text × Text))
add_targets policy [] targets = ok targets
add_targets policy (unit ∷ rest) targets = do
  found ← or_fail (spec policy unit) (lost_target unit)
  add_targets policy rest (insert unit found.health_url targets)

abbrev mutation_definition : List Text → Text → Text → Risk → OperationDefinition
mutation_definition units action summary risk = record {
  action = action;
  summary = summary;
  risk = risk;
  requires_confirmation = true;
  implemented = true;
  parameters =
      record {
        name = text "unit";
        description = text "Exact service unit from the compiled mutation allowlist";
        required = true;
        pattern = [];
        allowed_values = some units;
      }
      ∷ [];
}

abbrev nanoseconds : ℤ → ℕ
nanoseconds (pos n) = n
nanoseconds (negsuc n) = 0

-- Registry.EnableServiceMutations; the two flags say whether the mutator and the health checker are
-- given.
unfoldable pub enable_service_mutations :
    Bool → Bool → Policy → ℤ → ℤ → Registry → Result EnableError Registry
enable_service_mutations mutator health policy timeout interval r = do
  require mutator mutator_required
  require health health_required
  refuse (below timeout second || above timeout (2 * minute)) invalid_timeout
  refuse (below interval 10000000 || above interval (5 * second)) invalid_interval
  let units = allowed_units policy
  targets ← add_targets policy units []
  let enabled : Registry = record r {
    service_targets = targets;
    transaction_timeout = nanoseconds timeout;
    poll_interval = nanoseconds interval;
  }
  let add = λ (action summary : Text) (risk : Risk) (s : Registry).
      register (mutation_definition units action summary risk) (run_transaction action) s
  ok (
      add (text "service.restart") (text "Restart an allowlisted managed service") risk_low (
        add (text "service.stop") (text "Stop an allowlisted managed service") risk_high (
          add (text "service.start") (text "Start an allowlisted managed service") risk_low
            enabled)))

-- expectedActiveState
unfoldable pub expected_active_state : Text → Text
expected_active_state action =
    if action == text "service.stop" then text "inactive" else text "active"

-- stateValue
unfoldable pub state_value : StringMap → Text → Text
state_value observed key = to_lower (trim_space (value_or_empty (lookup key observed)))

module _ {W : Type 0} (host : Host W) where
  -- applyServiceAction
  unfoldable pub apply_service_action : Text → Text → W → Bool × W
  apply_service_action action unit w =
      if action == text "service.start"
      then host.start unit w
      else if action == text "service.stop"
      then host.stop unit w
      else if action == text "service.restart"
      then host.restart unit w
      else (false, w)

  -- The test of one round on an observed state: whether it is the one to wait for.
  unfoldable pub reached : Text → Text → Text → StringMap → W → Bool × W
  reached unit url expected observed w =
      if state_value observed (text "active_state") == expected
      then (if not (expected == text "active") || url == [] then (true, w) else host.check url w)
      else (false, w)

  abbrev pub judge :
      Text
      → Text
      → Text
      → Option StringMap
      → Result Text StringMap × W
      → Bool × Option StringMap × W
  judge unit url expected last (ok observed, w) =
      let (done, w') = reached unit url expected observed w in (done, some observed, w')
  judge unit url expected last (err e, w) = (false, last, w)

  -- One round of the polling loop, up to its select.
  unfoldable pub poll : Text → Text → Text → Option StringMap → W → Bool × Option StringMap × W
  poll unit url expected last w = judge unit url expected last (host.service_status unit w)

  -- waitForServicePostcondition: the last state that was observed, and whether it is the expected one.
  unfoldable pub wait_for :
      ℕ → Text → Text → Text → Option StringMap → W → Option (Bool × Option StringMap × W)
  wait_for zero unit url expected last w = none
  wait_for (suc fuel) unit url expected last w =
      let round = poll unit url expected last w in
      let tick = host.wait round.2 in
      let more = wait_for fuel unit url expected round.1 tick.1 in
      if round.0
      then some (true, round.1, round.2)
      else if tick.0
      then more
      else some (false, round.1, tick.1)

  abbrev pub recovery_result : Option (Bool × Option StringMap × W) → Option (Text × W)
  recovery_result none = none
  recovery_result (some (done, last, w)) =
      some (if done then text "succeeded" else text "failed", w)

  -- The end of recoverPrecondition, for the action that restores the precondition.
  unfoldable pub recover_by : ℕ → Text → Text → W → Option (Text × W)
  recover_by fuel action unit w =
      let applied = apply_service_action action unit w in
      let waited =
        recovery_result (wait_for fuel unit [] (expected_active_state action) none applied.1) in
      if applied.0 then waited else some (text "failed", applied.1)

  -- recoverPrecondition
  unfoldable pub recover_precondition : ℕ → Text → Text → W → Option (Text × W)
  recover_precondition fuel unit pre w =
      if host.ended w
      then some (text "failed", w)
      else if pre == text "active"
      then recover_by fuel (text "service.start") unit w
      else if pre == text "inactive" || pre == text "failed"
      then recover_by fuel (text "service.stop") unit w
      else some (text "not_defined", w)

  abbrev pub Outcome : Type 0
  Outcome = Option Fields × Option OperationError

  abbrev pub action_failed : OperationError
  action_failed =
      operation_error (text "service_action_failed")
        (text "service action failed before the expected postcondition was reached")

  abbrev pub postcondition_failed : OperationError
  postcondition_failed =
      operation_error (text "service_postcondition_failed")
        (text "service did not reach the required postcondition before timeout")

  -- A result with what the recovery came to.
  abbrev pub recovered : Fields → OperationError → Option (Text × W) → Option (Outcome × W)
  recovered result e none = none
  recovered result e (some (status, w)) =
      some ((some (insert (text "recovery_status") (string status) result), some e), w)

  -- result["postcondition"]; a nil map is stored as no fields.
  abbrev pub with_postcondition : Option StringMap → Fields → Fields
  with_postcondition none result = insert (text "postcondition") (state []) result
  with_postcondition (some s) result = insert (text "postcondition") (state s) result

  abbrev pub observed : Result Text StringMap → Option StringMap
  observed (ok s) = some s
  observed (err e) = none

  -- The transaction behind a successful action: the wait, and the recovery if it fails.
  abbrev pub after_action :
      ℕ
      → Text
      → Text
      → Text
      → Text
      → Fields
      → Option (Bool × Option StringMap × W)
      → Option (Outcome × W)
  after_action fuel action unit url pre result none = none
  after_action fuel action unit url pre result (some (done, last, w)) =
      let fields = with_postcondition last result in
      let failure = recovered fields postcondition_failed (recover_precondition fuel unit pre w) in
      let verified = insert (text "postcondition_verified") (boolean true) fields in
      if done
      then some (
        (
          some (
              if expected_active_state action == text "active" && not (url == [])
              then insert (text "health_verified") (boolean true) verified
              else verified),
          none,
        ),
        w,
      )
      else failure

  -- The transaction behind the precondition.
  unfoldable pub run_action : ℕ → Text → Text → Text → Text → Fields → W → Option (Outcome × W)
  run_action fuel action unit url pre result w =
      let applied = apply_service_action action unit w in
      let last = host.service_status unit applied.1 in
      let failure =
        recovered (with_postcondition (observed last.0) result) action_failed
          (recover_precondition fuel unit pre last.1) in
      let waited = wait_for fuel unit url (expected_active_state action) none applied.1 in
      if applied.0 then after_action fuel action unit url pre result waited else failure

  abbrev pub health_text : Bool → Text
  health_text true = text "healthy"
  health_text false = text "unhealthy"

  -- The transaction on a target, with the observed precondition.
  abbrev pub on_precondition :
      ℕ → Text → Text → Text → Result Text StringMap × W → Option (Outcome × W)
  on_precondition fuel action unit url (err e, w) = some (
    (
      none,
      some (
          operation_error (text "service_precondition_failed")
            (text "service precondition could not be observed")),
    ),
    w,
  )
  on_precondition fuel action unit url (ok precondition, w) =
      let pre = state_value precondition (text "active_state") in
      let result : Fields =
        (text "action", string action)
        ∷ (text "unit", string unit)
        ∷ (text "precondition", state precondition)
        ∷ (text "recovery_status", string (text "not_required"))
        ∷ [] in
      let health = host.check url w in
      if not (url == []) && pre == text "active"
      then run_action fuel action unit url pre
          (insert (text "pre_health") (string (health_text health.0)) result) health.1
      else run_action fuel action unit url pre result w

  abbrev pub on_target : ℕ → Text → Text → W → Option Text → Option (Outcome × W)
  on_target fuel action unit w none = some (
    (
      none,
      some (
          operation_error (text "service_not_allowlisted")
            (text "service is not in the mutation allowlist")),
    ),
    w,
  )
  on_target fuel action unit w (some url) =
      on_precondition fuel action unit url (host.service_status unit w)

  -- Registry.runServiceTransaction, in a context that ends with the registry's timeout.
  unfoldable pub run_service_transaction : ℕ → Registry → Text → Text → W → Option (Outcome × W)
  run_service_transaction fuel r action unit w =
      on_target fuel action unit w (lookup unit r.service_targets)
