-- ===== src/Broker/Mutations/Recovery.antt =====
-- What a service transaction comes to: it ends, success is verified, and the recovery behind a
-- timeout.
use quantum_control.Prelude.{
  ℕ, ◌≤◌, ◌<◌, ◌≡◌, refl, inl, inr, true, false, ◌||◌, Option, none, some, [], arith, if◌then◌else◌,
  Bool-cases,
}
use quantum_control.Text.{Text, text, ◌==◌}
use quantum_control.Protocol.{StringMap, string, Fields, insert}
use quantum_control.Broker.Host.{Host, HasDeadline}
use quantum_control.Broker.Mutations.{
  expected_active_state, apply_service_action, wait_for, recover_by, recover_precondition,
  with_postcondition, run_action, postcondition_failed,
}
use quantum_control.Broker.Mutations.Polling.{wait_for_ends, wait_for_ended}

module _ {W : Type 0} (host : Host W) where
  pub apply_left :
      (d : HasDeadline host) (action unit : Text) (w : W)
      → d.left (apply_service_action host action unit w).1 ≤ d.left w
  unfolding apply_service_action
  apply_left d action unit w = elim (Bool-cases (action == text "service.start")) [
    | inl a ↦ rw a (d.start_left unit w)
    | inr a ↦ elim (Bool-cases (action == text "service.stop")) [
      | inl b ↦ rw (a, b) (d.stop_left unit w)
      | inr b ↦ elim (Bool-cases (action == text "service.restart")) [
        | inl c ↦ rw (a, b, c) (d.restart_left unit w)
        | inr c ↦ rw (a, b, c) (omega arith)
      ]
    ]
  ]

  recover_by_ends :
      (d : HasDeadline host) (fuel : ℕ) (action unit : Text) (w : W)
      → d.left w < fuel
      → (o : Text × W) × (recover_by host fuel action unit w ≡ some o)
  unfolding recover_by
  recover_by_ends d fuel action unit w n =
      let applied = apply_service_action host action unit w in
      let ((done, last, v), e, _) =
        wait_for_ends host d fuel unit [] (expected_active_state action) none applied.1
          (omega (arith, apply_left d action unit w, n)) in
      elim (Bool-cases applied.0) [
        | inl a ↦ ((if done then text "succeeded" else text "failed", v), rw (a, e) refl)
        | inr a ↦ ((text "failed", applied.1), rw a refl)
      ]

  pub recover_precondition_ends :
      (d : HasDeadline host) (fuel : ℕ) (unit pre : Text) (w : W)
      → d.left w < fuel
      → (o : Text × W) × (recover_precondition host fuel unit pre w ≡ some o)
  unfolding recover_precondition
  recover_precondition_ends d fuel unit pre w n = elim (Bool-cases (host.ended w)) [
    | inl a ↦ ((text "failed", w), rw a refl)
    | inr a ↦ elim (Bool-cases (pre == text "active")) [
      | inl b ↦
          let (o, e) = recover_by_ends d fuel (text "service.start") unit w n in (o, rw (a, b) e)
      | inr b ↦ elim (Bool-cases (pre == text "inactive" || pre == text "failed")) [
        | inl c ↦
            let (o, e) = recover_by_ends d fuel (text "service.stop") unit w n in
            (o, rw (a, b, c) e)
        | inr c ↦ ((text "not_defined", w), rw (a, b, c) refl)
      ]
    ]
  ]

  -- Once the context has ended no recovery is tried.
  recover_precondition_ended :
      (fuel : ℕ) (unit pre : Text) (w : W)
      → host.ended w ≡ true
      → recover_precondition host fuel unit pre w ≡ some (text "failed", w)
  unfolding recover_precondition
  recover_precondition_ended fuel unit pre w e = rw e refl

  -- A timeout is never recovered from. The loop that waits for the postcondition gives up only
  -- where the context has ended, and the recovery gives up in a context that has ended: so an
  -- action that was applied and did not reach its state ends with the recovery status "failed", and
  -- in the state in which the loop gave up, with no call to systemd behind it.
  pub timeout_not_recovered :
      (ends : (w : W) → (host.wait w).0 ≡ false → host.ended (host.wait w).1 ≡ true) (fuel : ℕ)
      (action unit url pre : Text) (result : Fields) (w w' : W) (last : Option StringMap)
      → (apply_service_action host action unit w).0 ≡ true
      → wait_for host fuel unit url
          (expected_active_state action)
          none
          (apply_service_action host action unit w).1
        ≡ some (false, last, w')
      → run_action host fuel action unit url pre result w
        ≡ some (
          (
            some (
                insert
                  (text "recovery_status")
                  (string (text "failed"))
                  (with_postcondition host last result)),
            some (postcondition_failed host),
          ),
          w',
        )
  unfolding run_action
  timeout_not_recovered ends fuel action unit url pre result w w' last a e =
      let stopped =
        wait_for_ended host ends fuel unit url (expected_active_state action) none last
          (apply_service_action host action unit w).1 w' e in
      rw (a, e, recover_precondition_ended fuel unit pre w' stopped) refl
