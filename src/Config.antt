-- ===== src/Config.antt =====
-- internal/config/config.go: the configuration of the two processes. The parsers of the standard
-- library, the environment and the read of the token file are arguments.
pub mod Valid
pub mod Load
use quantum_control.Prelude.{
  ℕ, zero, suc, ◌+◌, ◌-◌, ◌*◌, ◌%◌, ◌^◌, ◌≤◌, ◌<◌, min, ◌≡◌, refl, sym, ap, ap₂, subst, ◌∙◌, ◌≢◌,
  ◌↔◌, ◌⊎◌, inl, inr, Bool, true, false, ◌&&◌, ◌||◌, not, Option, none, some, List, [], ◌∷◌, ◌++◌,
  map, reverse, arith, ltb, leb, eqb, eqb_iff, eqb_refl, if◌then◌else◌, Bool-cases, Option-cases,
  Bool-ext, Result, ok, err, ◌>>=◌, ◌>>◌, require, refuse, or_fail, Result-cases, ok-injective,
  some_inj, length, take, All, All-append, All-map, length-append, length-take,
}
use quantum_control.Text.{Text, text, ◌==◌, eq_iff, eq_refl, eq_comm}
use quantum_control.Text.Trim.{trim_space}
use quantum_control.Clock.{Duration, second, minute}
use quantum_control.Prelude.Int.{ℤ, pos}

abbrev pub default_control_listen : Text
default_control_listen = text "127.0.0.1:17440"

abbrev pub default_broker_socket : Text
default_broker_socket = text "/run/quantum-control/qcored.sock"

abbrev pub default_token_file : Text
default_token_file = text "/etc/quantum-control/broker.token"

abbrev pub default_audit_path : Text
default_audit_path = text "/var/lib/quantum-control/audit/audit.jsonl"

abbrev pub default_broker_grant_path : Text
default_broker_grant_path = text "/var/lib/quantum-control-broker/grants.json"

abbrev pub default_body_limit : ℤ
default_body_limit = pos 1048576

abbrev pub default_transaction_timeout : Duration
default_transaction_timeout = pos (30 * second)

abbrev pub millisecond : ℕ
millisecond = 1000000

abbrev pub default_service_poll : Duration
default_service_poll = pos (250 * millisecond)

-- Control
pub record ControlConfig : Type 0 where
  pub listen : Text
  pub api_token : Text
  pub actor_file : Text
  pub audit_path : Text
  pub plan_ttl : Duration
  pub broker_socket : Text
  pub broker_token : Text
  pub request_body_limit : ℤ
  pub header_timeout : Duration
  pub idle_timeout : Duration
  pub broker_timeout : Duration

-- Broker
pub record BrokerConfig : Type 0 where
  pub socket_path : Text
  pub broker_token : Text
  pub actor_file : Text
  pub grant_path : Text
  pub grant_ttl : Duration
  pub service_policy_file : Text
  pub transaction_timeout : Duration
  pub service_poll_interval : Duration
  pub request_body_limit : ℤ
  pub header_timeout : Duration
  pub idle_timeout : Duration

-- What the configuration calls of net, strconv and time; an error is `none`. `is_loopback_ip` is
-- net.ParseIP followed by IsLoopback.
pub record Parsers : Type 0 where
  pub split_host_port : Text → Option (Text × Text)
  pub is_loopback_ip : Text → Bool
  pub parse_int : Text → Option ℤ
  pub parse_duration : Text → Option Duration

pub data ConfigError : Type 0 where
  invalid_listen short_broker_token short_api_token : ConfigError
  relative_socket relative_actor_file relative_audit_path : ConfigError
  relative_grant_path relative_policy_file : ConfigError
  invalid_plan_ttl invalid_grant_ttl invalid_body_limit invalid_timeouts : ConfigError
  invalid_transaction_timeout invalid_poll_interval : ConfigError
  open_listener token_unreadable : ConfigError
  unparsed : Text → ConfigError
