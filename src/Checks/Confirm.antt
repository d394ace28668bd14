-- ===== src/Checks/Confirm.antt =====
-- The server of the broker at concrete inputs.
use quantum_control.Prelude.{◌≡◌, ◌≢◌, refl, ◌⊎◌, true, none, some, [], ◌∷◌, eqb}
use quantum_control.Text.{text, ◌==◌}
use quantum_control.Text.Trim.{trim_space}
use quantum_control.Text.Hex
use quantum_control.Text.Case.{to_lower, equal_fold}
use quantum_control.Text.Order.{text_lt}
use quantum_control.Text.Sort.{contains, sort_by}
use quantum_control.Clock.{is_zero, zero_time}
use quantum_control.Protocol.{lookup, insert}
use quantum_control.Security.Digest.{decode_sha256}
use quantum_control.Security.Plan.{verify_plan_digest, plan_digest, draft_plan, build, new_id}
use quantum_control.Security.Grants.{issue, draft_grant, save, prepare_file, already_exists}
use quantum_control.Broker.Registry.{validate, check_parameters, check_names, validate_parameter}
use quantum_control.Broker.Approved.{
  exact_plan_parameters, authenticate_actor, validate_approved_plan,
}
use quantum_control.Security.Types.{GrantResponse}
use quantum_control.Security.Actor.{has_permission}
use quantum_control.Broker.Server.{
  Server, State, Draws, Reply, post_confirm, envelope, ConfirmationEnvelope, handle_confirm,
  confirmation_of, decode_json, serve, is_broker_token, write_json, grant_body,
}
use quantum_control.Broker.Server.Guards.{IsConfirmed, serve_confirm_guarded}
use quantum_control.Checks.Data.{sha, approver, entropy, marshal}
use quantum_control.Checks.Plans.{built}
use quantum_control.Checks.Grants.{calls, encode, store, later}
use quantum_control.Checks.Broker.{Machine, machine, idle}
use quantum_control.Checks.Approved.{registry, moment, compile, quote}

abbrev pub server : Server
server = record { registry = registry; token = text "wire"; actors = some (λ t. some approver) }

abbrev pub draws : Draws
draws = record {
  arrived = moment;
  executed = moment;
  consumed = later;
  issued = later;
  random = some (7 ∷ 9 ∷ []);
  grant_id = entropy;
  calls = calls;
}

abbrev pub state : State Machine
state = record { grants = some store; disk = none; host = idle }

abbrev pub given : ConfirmationEnvelope
given = record { plan = built; actor_token = text "key" }

abbrev outcome : Reply × State Machine
outcome = handle_confirm sha marshal compile quote encode draws server (envelope given) state

answered :
    serve
      (machine true)
      sha
      marshal
      compile
      quote
      encode
      3
      draws
      server
      (record { token = text " wire"; route = post_confirm (envelope given) })
      state
    ≡ some (some outcome.0, outcome.1)
unfolding serve is_broker_token trim_space text ◌==◌
answered = refl

serve_confirm_guarded_example :
    ((outcome.1 ≡ state) × (outcome.0.status ≢ 201))
    ⊎ ((grant : GrantResponse) × (outcome.0 ≡ write_json 201 (grant_body grant))
        × IsConfirmed
            (machine true)
            sha
            marshal
            compile
            quote
            encode
            draws
            server
            (text " wire")
            (envelope given)
            grant
            state
            outcome.1)
serve_confirm_guarded_example =
    serve_confirm_guarded (machine true) sha marshal compile quote encode 3 draws server
      (text " wire") (envelope given) state outcome.1 outcome.0 answered

granted : eqb outcome.0.status 201 ≡ true
unfolding handle_confirm confirmation_of decode_json validate_approved_plan exact_plan_parameters
    authenticate_actor validate check_parameters check_names validate_parameter lookup insert issue
    draft_grant verify_plan_digest build plan_digest draft_plan trim_space text ◌==◌ equal_fold
    Hex.encode Hex.decode sort_by text_lt new_id has_permission contains already_exists save
    prepare_file decode_sha256 to_lower is_zero zero_time
granted = refl
