-- ===== src/Checks/Start.antt =====
-- cmd/qcored/main.go at concrete inputs.
use quantum_control.Prelude.{◌*◌, ◌≡◌, refl, none, some, [], ok}
use quantum_control.Text.{Text, text, ◌==◌}
use quantum_control.Text.Trim.{trim_space}
use quantum_control.Prelude.Int.{pos}
use quantum_control.Clock.{minute, second}
use quantum_control.Protocol.{lookup}
use quantum_control.Security.Grants.{missing, load, empty_state}
use quantum_control.ServiceControl.Policy.{spec, default_policy, load_policy}
use quantum_control.Broker.Registry.{Registry}
use quantum_control.Config.{BrokerConfig, default_body_limit, millisecond}
use quantum_control.Config.Valid.{validate_broker, is_abs}
use quantum_control.Config.Load.{load_broker, load_broker_token, env_or, env_value}
use quantum_control.Commands.{SecurityBoundary, Files, load_actors, start_broker}
use quantum_control.Commands.Start.{url_of, AreEnabled, broker_starts}
use quantum_control.Checks.Data.{sha}
use quantum_control.Checks.Exposure.{env, parsers}
use quantum_control.Checks.Actors.{decode, file_text, loaded}
use quantum_control.Security.Auth.{authenticate_bearer, load_actor_registry, normalize_credentials}
use quantum_control.Security.Actor.{
  normalize_actor, matches_actor_id, collect_permissions, role_permissions,
}
use quantum_control.Security.Digest.{decode_sha256, all_zero}
use quantum_control.Text.Hex
use quantum_control.Text.Case.{to_lower}
use quantum_control.Text.Order.{text_lt}
use quantum_control.Text.Sort.{contains, sort, unique}

abbrev config : BrokerConfig
config = record {
  socket_path = text "/run/quantum-control/qcored.sock";
  broker_token = text "0123456789012345678901234567890123456789";
  actor_file = text "/a";
  grant_path = text "/var/lib/quantum-control-broker/grants.json";
  grant_ttl = pos (2 * minute);
  service_policy_file = [];
  transaction_timeout = pos (30 * second);
  service_poll_interval = pos (250 * millisecond);
  request_body_limit = default_body_limit;
  header_timeout = pos (10 * second);
  idle_timeout = pos (30 * second);
}

abbrev files : Files
files = record {
  decode_policy = λ t. none;
  decode_grants = λ t. none;
  decode_actors = decode;
  policy = none;
  grants = missing;
  actors = some file_text;
}

config_eq : load_broker parsers env ≡ ok config
unfolding load_broker load_broker_token env_or env_value validate_broker is_abs trim_space text ◌==◌
config_eq = refl

policy_eq :
    load_policy files.decode_policy config.service_policy_file files.policy ≡ ok default_policy
unfolding load_policy trim_space ◌==◌
policy_eq = refl

grants_eq : load files.decode_grants files.grants ≡ ok empty_state
unfolding load
grants_eq = refl

actors_eq : load_actors sha files config ≡ ok (some (authenticate_bearer sha loaded))
unfolding load_actors load_actor_registry normalize_credentials normalize_actor trim_space sort
    unique contains text ◌==◌ text_lt matches_actor_id collect_permissions role_permissions
    decode_sha256 Hex.encode Hex.decode to_lower all_zero
actors_eq = refl

broker_starts_example :
    (registry : Registry) × (boundary : SecurityBoundary) × (start_broker sha files parsers env
      ≡ ok (registry, boundary, config))
    × (boundary.actors ≡ some (authenticate_bearer sha loaded))
    × (boundary.grants.state ≡ empty_state)
    × ((u : Text) → lookup u registry.service_targets ≡ url_of (spec default_policy u) none)
    × AreEnabled default_policy registry
broker_starts_example =
    broker_starts sha files parsers env config default_policy empty_state
      (some (authenticate_bearer sha loaded)) config_eq policy_eq grants_eq actors_eq
