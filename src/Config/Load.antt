-- ===== src/Config/Load.antt =====
-- internal/config/config.go: LoadControl and LoadBroker.
pub mod Laws
use quantum_control.Prelude.{
  ℕ, zero, suc, ◌+◌, ◌-◌, ◌*◌, ◌%◌, ◌^◌, ◌≤◌, ◌<◌, min, ◌≡◌, refl, sym, ap, ap₂, subst, ◌∙◌, ◌≢◌,
  ◌↔◌, ◌⊎◌, inl, inr, Bool, true, false, ◌&&◌, ◌||◌, not, Option, none, some, List, [], ◌∷◌, ◌++◌,
  map, reverse, arith, ltb, leb, eqb, eqb_iff, eqb_refl, if◌then◌else◌, Bool-cases, Option-cases,
  Bool-ext, Result, ok, err, ◌>>=◌, ◌>>◌, require, refuse, or_fail, Result-cases, ok-injective,
  some_inj, length, take, All, All-append, All-map, length-append, length-take,
}
use quantum_control.Text.{Text, text, ◌==◌, eq_iff, eq_refl, eq_comm}
use quantum_control.Text.Trim.{trim_space}
use quantum_control.Clock.{Duration, second, minute}
use quantum_control.Prelude.Int.{ℤ, pos}
use quantum_control.Config.{
  ControlConfig, BrokerConfig, Parsers, ConfigError, unparsed, short_broker_token, token_unreadable,
  default_control_listen, default_broker_socket, default_token_file, default_audit_path,
  default_broker_grant_path, default_body_limit, default_transaction_timeout, default_service_poll,
}
use quantum_control.Config.Valid.{validate_control, validate_broker}

-- os.Getenv, and os.ReadFile without its error.
pub record Environment : Type 0 where
  pub getenv : Text → Text
  pub read_file : Text → Option Text

-- envOr
unfoldable pub env_or : Environment → Text → Text → Text
env_or env key fallback =
    let value = trim_space (env.getenv key) in if value == [] then fallback else value

abbrev long_enough : Text → Result ConfigError Text
long_enough token = do refuse (ltb (length token) 32) short_broker_token; ok token

-- loadBrokerToken
unfoldable pub load_broker_token : Environment → Result ConfigError Text
load_broker_token env =
    let token = trim_space (env.getenv (text "QUANTUM_CONTROL_BROKER_TOKEN")) in
    let path = env_or env (text "QUANTUM_CONTROL_BROKER_TOKEN_FILE") default_token_file in
    if not (token == []) then long_enough token else (do
      content ← or_fail (env.read_file path) token_unreadable
      long_enough (trim_space content))

-- envInt64 and envDuration, with the parser of the value.
unfoldable pub env_value : (Text → Option ℤ) → Environment → Text → ℤ → Result ConfigError ℤ
env_value parse env key fallback =
    let value = trim_space (env.getenv key) in
    if value == [] then ok fallback else or_fail (parse value) (unparsed key)

module _ (parsers : Parsers) (env : Environment) where
  abbrev env_int64 : Text → ℤ → Result ConfigError ℤ
  env_int64 = env_value parsers.parse_int env

  abbrev env_duration : Text → Duration → Result ConfigError Duration
  env_duration = env_value parsers.parse_duration env

  -- LoadControl
  unfoldable pub load_control : Result ConfigError ControlConfig
  load_control = do
    broker_token ← load_broker_token env
    body_limit ← env_int64 (text "QUANTUM_CONTROL_REQUEST_BODY_LIMIT") default_body_limit
    header_timeout ← env_duration (text "QUANTUM_CONTROL_HEADER_TIMEOUT") (pos (10 * second))
    idle_timeout ← env_duration (text "QUANTUM_CONTROL_IDLE_TIMEOUT") (pos (90 * second))
    broker_timeout ← env_duration (text "QUANTUM_CONTROL_BROKER_TIMEOUT") (pos (15 * second))
    plan_ttl ← env_duration (text "QUANTUM_CONTROL_PLAN_TTL") (pos (5 * minute))
    let config : ControlConfig = record {
      listen = env_or env (text "QUANTUM_CONTROL_LISTEN") default_control_listen;
      api_token = trim_space (env.getenv (text "QUANTUM_CONTROL_API_TOKEN"));
      actor_file = trim_space (env.getenv (text "QUANTUM_CONTROL_ACTOR_FILE"));
      audit_path = env_or env (text "QUANTUM_CONTROL_AUDIT_PATH") default_audit_path;
      plan_ttl = plan_ttl;
      broker_socket = env_or env (text "QUANTUM_CONTROL_BROKER_SOCKET") default_broker_socket;
      broker_token = broker_token;
      request_body_limit = body_limit;
      header_timeout = header_timeout;
      idle_timeout = idle_timeout;
      broker_timeout = broker_timeout;
    }
    validate_control parsers config
    ok config

  -- LoadBroker
  unfoldable pub load_broker : Result ConfigError BrokerConfig
  load_broker = do
    broker_token ← load_broker_token env
    body_limit ← env_int64 (text "QUANTUM_CONTROL_BROKER_REQUEST_BODY_LIMIT") default_body_limit
    header_timeout ← env_duration (text "QUANTUM_CONTROL_BROKER_HEADER_TIMEOUT") (pos (10 * second))
    idle_timeout ← env_duration (text "QUANTUM_CONTROL_BROKER_IDLE_TIMEOUT") (pos (30 * second))
    grant_ttl ← env_duration (text "QUANTUM_CONTROL_GRANT_TTL") (pos (2 * minute))
    transaction_timeout ←
        env_duration (text "QUANTUM_CONTROL_TRANSACTION_TIMEOUT") default_transaction_timeout
    poll_interval ← env_duration (text "QUANTUM_CONTROL_SERVICE_POLL_INTERVAL") default_service_poll
    let config : BrokerConfig = record {
      socket_path = env_or env (text "QUANTUM_CONTROL_BROKER_SOCKET") default_broker_socket;
      broker_token = broker_token;
      actor_file = trim_space (env.getenv (text "QUANTUM_CONTROL_ACTOR_FILE"));
      grant_path = env_or env (text "QUANTUM_CONTROL_GRANT_PATH") default_broker_grant_path;
      grant_ttl = grant_ttl;
      service_policy_file = trim_space (env.getenv (text "QUANTUM_CONTROL_SERVICE_POLICY_FILE"));
      transaction_timeout = transaction_timeout;
      service_poll_interval = poll_interval;
      request_body_limit = body_limit;
      header_timeout = header_timeout;
      idle_timeout = idle_timeout;
    }
    validate_broker config
    ok config
