-- ===== src/Checks/Exposure.antt =====
-- The control server with loaded dependencies at concrete inputs.
use quantum_control.Prelude.{ℕ, ◌*◌, ◌≡◌, refl, false, none, some, [], ◌∷◌, if◌then◌else◌, ok}
use quantum_control.Text.{Text, text, ◌==◌}
use quantum_control.Text.Trim.{trim_space}
use quantum_control.Text.Hex
use quantum_control.Text.Case.{to_lower}
use quantum_control.Text.Order.{text_lt}
use quantum_control.Text.Sort.{contains, sort, unique}
use quantum_control.Text.Prefix.{strip_prefix}
use quantum_control.Prelude.Int.{pos}
use quantum_control.Clock.{minute, second}
use quantum_control.Security.Types.{control_read}
use quantum_control.Security.Actor.{
  normalize_actor, matches_actor_id, collect_permissions, role_permissions,
}
use quantum_control.Security.Digest.{decode_sha256, all_zero}
use quantum_control.Security.Auth.{
  find_credential, normalize_credentials, load_actor_registry, authenticate_bearer,
  authenticate_multi,
}
use quantum_control.Security.Grants.{missing}
use quantum_control.Security.Audit.{open_audit_store}
use quantum_control.Config.{ControlConfig, Parsers, default_body_limit}
use quantum_control.Config.Valid.{validate_control, is_abs, is_loopback_listen, drop_brackets}
use quantum_control.Text.Case.{equal_fold_ascii, fold_ascii}
use quantum_control.Config.Load.{Environment, load_control, load_broker_token, env_or, env_value}
use quantum_control.Control.Server.{
  SecurityDependencies, Server, new_request_id, new_server_with_security,
}
use quantum_control.Control.Auth.{authenticate_request, unauthorized, forbidden}
use quantum_control.Control.Dependencies.{
  load_security_dependencies, registry_authenticators, legacy_authenticators, multi_or_nil,
}
use quantum_control.Control.Guards.{route_permission}
use quantum_control.Control.Routes.{get_info, get_audit_integrity, Request, serve}
use quantum_control.Control.Tci.{is_reserved, tci_forbidden}
use quantum_control.Control.Exposure.{exposed_unauthorized}
use quantum_control.Checks.Actors.{decode, file_text, loaded, normal, normal_tci}
use quantum_control.Checks.Data.{sha, marshal}
use quantum_control.Checks.Control.{broker, approval, scanner, server, state, draws, codec, atoi}

-- A process that listens on every interface, with an actor file.
abbrev getenv : Text → Text
getenv key =
    if key == text "QUANTUM_CONTROL_BROKER_TOKEN"
    then text "0123456789012345678901234567890123456789"
    else if key == text "QUANTUM_CONTROL_LISTEN"
    then text "0.0.0.0:80"
    else if key == text "QUANTUM_CONTROL_ACTOR_FILE"
    then text "/a"
    else []

abbrev pub env : Environment
env = record { getenv = getenv; read_file = λ path. none }

abbrev pub parsers : Parsers
parsers = record {
  split_host_port = λ address. some (address, []);
  is_loopback_ip = λ host. false;
  parse_int = λ t. none;
  parse_duration = λ t. none;
}

abbrev config : ControlConfig
config = record {
  listen = text "0.0.0.0:80";
  api_token = [];
  actor_file = text "/a";
  audit_path = text "/var/lib/quantum-control/audit/audit.jsonl";
  plan_ttl = pos (5 * minute);
  broker_socket = text "/run/quantum-control/qcored.sock";
  broker_token = text "0123456789012345678901234567890123456789";
  request_body_limit = default_body_limit;
  header_timeout = pos (10 * second);
  idle_timeout = pos (90 * second);
  broker_timeout = pos (15 * second);
}

config_eq : load_control parsers env ≡ ok config
unfolding load_control load_broker_token env_or env_value validate_control is_abs is_loopback_listen
    drop_brackets equal_fold_ascii fold_ascii trim_space text ◌==◌
config_eq = refl

exposed : is_loopback_listen parsers config.listen ≡ false
unfolding is_loopback_listen drop_brackets equal_fold_ascii fold_ascii trim_space text ◌==◌
exposed = refl

abbrev dependencies : SecurityDependencies
dependencies = record {
  authenticator = multi_or_nil sha (some (authenticate_bearer sha loaded) ∷ []);
  audit = some (record { path = config.audit_path; records = []; last_hash = []; sequence = 0 });
  plans = some [];
  ttl = config.plan_ttl;
}

dependencies_eq :
    load_security_dependencies sha codec decode (some file_text) missing config ≡ ok dependencies
unfolding load_security_dependencies registry_authenticators legacy_authenticators open_audit_store
    load_actor_registry normalize_credentials normalize_actor trim_space sort unique contains text
    ◌==◌ text_lt matches_actor_id collect_permissions role_permissions decode_sha256 Hex.encode
    Hex.decode to_lower all_zero
dependencies_eq = refl

exposed_unauthorized_example :
    serve sha marshal codec atoi
      (new_server_with_security broker (some approval) scanner dependencies none 0).0
      draws
      (record {
        headers = record { authorization = text "Basic x"; session = [] };
        route = get_info;
      })
      state
    ≡ (unauthorized (new_request_id draws.request_id), state)
unfolding route_permission strip_prefix text
exposed_unauthorized_example =
    exposed_unauthorized sha marshal codec atoi parsers env decode (some file_text) missing config
      dependencies broker (some approval) scanner none 0 draws
      (record {
        headers = record { authorization = text "Basic x"; session = [] };
        route = get_info;
      })
      control_read state config_eq exposed dependencies_eq refl refl

abbrev tci_server : Server ℕ
tci_server = record server { authenticator = dependencies.authenticator }

abbrev tci_request : Request
tci_request = record {
  headers = record { authorization = text "Bearer secret"; session = [] };
  route = get_audit_integrity;
}

recognised :
    authenticate_request tci_server.authenticator tci_request.headers.authorization
    ≡ some (normal, text "secret")
unfolding authenticate_request authenticate_multi authenticate_bearer find_credential strip_prefix
    trim_space text ◌==◌ decode_sha256 Hex.encode Hex.decode to_lower
recognised = refl

tci_forbidden_example :
    serve sha marshal codec atoi tci_server draws tci_request state
    ≡ (forbidden (new_request_id draws.request_id), state)
unfolding is_reserved
tci_forbidden_example =
    tci_forbidden sha marshal codec atoi decode (some file_text) missing config dependencies
      tci_server draws tci_request normal (text "secret") state dependencies_eq refl recognised
      normal_tci refl
