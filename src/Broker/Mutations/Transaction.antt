-- ===== src/Broker/Mutations/Transaction.antt =====
-- A service transaction as a whole: it ends, and what its success means.
use quantum_control.Prelude.{
  ok, ℕ, ◌≤◌, ◌<◌, ◌≡◌, refl, inl, inr, true, ◌&&◌, not, Option, none, some, [], arith,
  if◌then◌else◌, Bool-cases, Option-cases, Result-cases,
}
use quantum_control.Text.{Text, text, ◌==◌}
use quantum_control.Protocol.{StringMap, string, boolean, state, Fields, lookup, insert}
use quantum_control.Broker.Host.{Host, HasDeadline}
use quantum_control.Broker.Registry.{Registry}
use quantum_control.Broker.Mutations.{
  OperationError, state_value, expected_active_state, apply_service_action, recovered,
  with_postcondition, run_action, run_service_transaction, postcondition_failed, action_failed,
  observed, Outcome,
}
use quantum_control.Broker.Mutations.Polling.{Round, Polls, settled_state, wait_for_ends}
use quantum_control.Broker.Mutations.Recovery.{apply_left, recover_precondition_ends}

module _ {W : Type 0} (host : Host W) where
  recovered_ends :
      (result : Fields) (e : OperationError) (r : Option (Text × W)) (o : Text × W)
      → r ≡ some o
      → (answer : Outcome host × W) × (recovered host result e r ≡ some answer)
  recovered_ends result e r o p =
      ((((some (insert (text "recovery_status") (string o.0) result), some e), o.1)), rw p refl)

  run_action_ends :
      (d : HasDeadline host) (fuel : ℕ) (action unit url pre : Text) (result : Fields) (w : W)
      → d.left w < fuel
      → (answer : Outcome host × W) × (run_action host fuel action unit url pre result w
          ≡ some answer)
  unfolding run_action
  run_action_ends d fuel action unit url pre result w n =
      let applied = apply_service_action host action unit w in
      let last = host.service_status unit applied.1 in
      let behind : d.left applied.1 ≤ d.left w = apply_left host d action unit w in
      elim (Bool-cases applied.0) [
        | inr a ↦
            let (o, e) =
              recover_precondition_ends host d fuel unit pre last.1
                (omega (arith, behind, d.status_left unit applied.1, n)) in
            let (answer, p) =
              recovered_ends (with_postcondition host (observed host last.0) result)
                (action_failed host) _ o e in
            (answer, rw a p)
        | inl a ↦
            let ((done, seen, v), e, l) =
              wait_for_ends host d fuel unit url (expected_active_state action) none applied.1
                (omega (arith, behind, n)) in
            let (o, k) =
              recover_precondition_ends host d fuel unit pre v (omega (arith, behind, l, n)) in
            let (answer, p) =
              recovered_ends (with_postcondition host seen result) (postcondition_failed host) _ o
                k in
            elim (Bool-cases done) [
              | inl t ↦ rw (a, e, t) (_, refl)
              | inr t ↦ (answer, rw (a, e, t) p)
            ]
      ]

  -- A service transaction ends: with more fuel than the deadline of its context leaves time, it gives
  -- an answer, whatever the registry, the action, the unit and the outcomes of the host's calls.
  pub run_service_transaction_ends :
      (d : HasDeadline host) (fuel : ℕ) (r : Registry) (action unit : Text) (w : W)
      → d.left w < fuel
      → (answer : Outcome host × W) × (run_service_transaction host fuel r action unit w
          ≡ some answer)
  unfolding run_service_transaction
  run_service_transaction_ends d fuel r action unit w n =
      let status = host.service_status unit w in
      elim (Option-cases (lookup unit r.service_targets)) [
        | inl p ↦ rw p (_, refl)
        | inr (url, p) ↦ elim (Result-cases status.0) [
          | inr (x, q) ↦ rw (p, q) (_, refl)
          | inl (s, q) ↦
              let pre = state_value s (text "active_state") in
              elim (Bool-cases (not (url == []) && pre == text "active")) [
                | inl c ↦
                    rw (p, q, c)
                      (run_action_ends d fuel action unit url pre _ (host.check url status.1).1
                        (omega (arith, d.check_left url status.1, d.status_left unit w, n)))
                | inr c ↦
                    rw (p, q, c)
                      (run_action_ends d fuel action unit url pre _ status.1
                        (omega (arith, d.status_left unit w, n)))
              ]
        ]
      ]

  -- The broker calls systemd for its targets alone: for a unit that is no target the transaction
  -- answers with an error and leaves the host as it was.
  pub not_allowlisted :
      (fuel : ℕ) (r : Registry) (action unit : Text) (w : W)
      → lookup unit r.service_targets ≡ none
      → (e : OperationError) × (run_service_transaction host fuel r action unit w
          ≡ some ((none, some e), w))
  unfolding run_service_transaction
  not_allowlisted fuel r action unit w p = rw p (_, refl)

  -- The host as the action of a transaction finds it, behind the observation of the precondition.
  abbrev pub before_action : Text → Text → StringMap → W → W
  before_action url unit precondition w =
      let seen = (host.service_status unit w).1 in
      if not (url == []) && state_value precondition (text "active_state") == text "active"
      then (host.check url seen).1
      else seen

  -- How a transaction verified its postcondition, and its answer: systemd took the action, and polls
  -- of the host behind it came to the last one, which observed the state that the action is for,
  -- with health where that is active and a URL is given. The answer holds what was observed then.
  pub record IsVerified (r : Registry) (action unit : Text) (fields : Option Fields) (w w' : W)
      : Type 0 where
    pub url : Text
    pub precondition : StringMap
    pub given : Fields
    pub seen : StringMap
    pub last : W
    pub target : lookup unit r.service_targets ≡ some url
    pub before : (host.service_status unit w).0 ≡ ok precondition
    pub applied :
        (apply_service_action host action unit (before_action url unit precondition w)).0 ≡ true
    pub polls :
        Polls host unit url
          (settled_state action)
          (apply_service_action host action unit (before_action url unit precondition w)).1
          last
    pub ended : Round host unit url (settled_state action) last true w'
    pub observed : (host.service_status unit last).0 ≡ ok seen
    pub reached : state_value seen (text "active_state") ≡ settled_state action
    pub answer : fields ≡ some given
    pub postcondition : lookup (text "postcondition") given ≡ some (state seen)
    pub marked : lookup (text "postcondition_verified") given ≡ some (boolean true)

  -- The same for the part of a transaction behind the precondition.
  record IsVerifiedAction (action unit url : Text) (fields : Option Fields) (w w' : W)
      : Type 0 where
    given : Fields
    seen : StringMap
    last : W
    applied : (apply_service_action host action unit w).0 ≡ true
    polls :
        Polls host unit url (settled_state action) (apply_service_action host action unit w).1 last
    ended : Round host unit url (settled_state action) last true w'
    observed : (host.service_status unit last).0 ≡ ok seen
    reached : state_value seen (text "active_state") ≡ settled_state action
    answer : fields ≡ some given
    postcondition : lookup (text "postcondition") given ≡ some (state seen)
    marked : lookup (text "postcondition_verified") given ≡ some (boolean true)
