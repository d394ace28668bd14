-- ===== src/Checks/Broker.antt =====
-- internal/broker/mutations.go at concrete inputs.
use quantum_control.Prelude.{
  ℕ, zero, suc, ◌≤◌, ◌<◌, ◌≡◌, refl, Bool, true, false, Option, none, some, [], ◌∷◌, arith, eqb,
  if◌then◌else◌, ok, err,
}
use quantum_control.Text.{Text, text, ◌==◌}
use quantum_control.Text.Trim.{trim_space}
use quantum_control.Text.Case.{to_lower}
use quantum_control.Protocol.{StringMap, Fields, string, lookup, insert}
use quantum_control.Broker.Host.{Host, HasDeadline}
use quantum_control.Broker.Registry.{Registry}
use quantum_control.Broker.Mutations.{
  Outcome, state_value, expected_active_state, apply_service_action, reached, poll, wait_for,
  run_action, run_service_transaction, with_postcondition, postcondition_failed,
}
use quantum_control.Broker.Mutations.Recovery.{timeout_not_recovered}
use quantum_control.Broker.Mutations.Transaction.{run_service_transaction_ends}

-- The ticks that are left, and the state of the one service.
abbrev pub Machine : Type 0
Machine = ℕ × Text

abbrev pub tick : Machine → Bool × Machine
tick (zero, s) = (false, (zero, s))
tick (suc n, s) = (true, (n, s))

-- A machine whose service obeys, or does not.
abbrev pub machine : Bool → Host Machine
machine obeys = record {
  snapshot = λ w. (err [], w);
  service_status = λ u w. (ok ((text "active_state", w.1) ∷ []), w);
  start = λ u w. (true, (w.0, if obeys then text "active" else w.1));
  stop = λ u w. (true, (w.0, if obeys then text "inactive" else w.1));
  restart = λ u w. (true, (w.0, if obeys then text "active" else w.1));
  check = λ u w. (true, w);
  wait = tick;
  ended = λ w. eqb w.0 0;
}

tick_left : (w : Machine) → (tick w).0 ≡ true → (tick w).1.0 < w.0
tick_left (zero, s) e = absurd (ground arith)
tick_left (suc n, s) e = omega arith

end_left : (w : Machine) → (tick w).1.0 ≤ w.0
end_left (zero, s) = omega arith
end_left (suc n, s) = omega arith

tick_ends : (w : Machine) → (tick w).0 ≡ false → eqb (tick w).1.0 0 ≡ true
tick_ends (zero, s) e = refl
tick_ends (suc n, s) e = absurd (ground arith)

abbrev deadline : HasDeadline (machine true)
deadline = record {
  left = λ w. w.0;
  wait_left = tick_left;
  status_left = λ u w. omega arith;
  check_left = λ u w. omega arith;
  start_left = λ u w. omega arith;
  stop_left = λ u w. omega arith;
  restart_left = λ u w. omega arith;
  end_left = end_left;
}

abbrev registry : Registry
registry = record {
  operations = [];
  service_targets = (text "a.service", text "http://127.0.0.1/healthz") ∷ [];
  transaction_timeout = 1000;
  poll_interval = 10;
}

abbrev pub idle : Machine
idle = (2, text "inactive")

run_service_transaction_ends_example :
    (answer : Outcome (machine true) × Machine) × (run_service_transaction
        (machine true)
        3
        registry
        (text "service.start")
        (text "a.service")
        idle
      ≡ some answer)
run_service_transaction_ends_example =
    run_service_transaction_ends (machine true) deadline 3 registry (text "service.start")
      (text "a.service") idle (omega arith)

abbrev or_none : Option (Outcome (machine true) × Machine) → Option Fields
or_none none = none
or_none (some a) = a.0.0

abbrev fields : Option Fields
fields = or_none (
    run_service_transaction (machine true) 3 registry (text "service.start") (text "a.service")
      idle)

-- A service that was active, is stopped, and stays active.
abbrev busy : Machine
busy = (1, text "active")

abbrev seen : Option StringMap
seen = some ((text "active_state", text "active") ∷ [])

applied :
    (apply_service_action (machine false) (text "service.stop") (text "a.service") busy).0 ≡ true
unfolding apply_service_action text ◌==◌
applied = refl

gave_up :
    wait_for
      (machine false)
      3
      (text "a.service")
      []
      (expected_active_state (text "service.stop"))
      none
      (apply_service_action (machine false) (text "service.stop") (text "a.service") busy).1
    ≡ some (false, seen, (0, text "active"))
unfolding lookup text ◌==◌ state_value to_lower trim_space apply_service_action wait_for poll
    reached expected_active_state
gave_up = refl

timeout_not_recovered_example :
    run_action (machine false) 3 (text "service.stop") (text "a.service") [] (text "active") [] busy
    ≡ some (
      (
        some (
            insert
              (text "recovery_status")
              (string (text "failed"))
              (with_postcondition (machine false) seen [])),
        some (postcondition_failed (machine false)),
      ),
      (0, text "active"),
    )
timeout_not_recovered_example =
    timeout_not_recovered (machine false) tick_ends 3 (text "service.stop") (text "a.service") []
      (text "active") [] busy (0, text "active") seen applied gave_up
