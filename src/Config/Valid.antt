-- ===== src/Config/Valid.antt =====
-- internal/config/config.go: Validate of both configurations and isLoopbackListen.
pub mod Laws
use quantum_control.Prelude.{
  ℕ, zero, suc, ◌+◌, ◌-◌, ◌*◌, ◌%◌, ◌^◌, ◌≤◌, ◌<◌, min, ◌≡◌, refl, sym, ap, ap₂, subst, ◌∙◌, ◌≢◌,
  ◌↔◌, ◌⊎◌, inl, inr, Bool, true, false, ◌&&◌, ◌||◌, not, Option, none, some, List, [], ◌∷◌, ◌++◌,
  map, reverse, arith, ltb, leb, eqb, eqb_iff, eqb_refl, if◌then◌else◌, Bool-cases, Option-cases,
  Bool-ext, Result, ok, err, ◌>>=◌, ◌>>◌, require, refuse, or_fail, Result-cases, ok-injective,
  some_inj, length, take, All, All-append, All-map, length-append, length-take,
}
use quantum_control.Text.{Text, text, ◌==◌, eq_iff, eq_refl, eq_comm}
use quantum_control.Text.Trim.{trim_space}
use quantum_control.Text.Case.{equal_fold_ascii}
use quantum_control.Clock.{second, minute}
use quantum_control.Prelude.Int.{not_positive, above, below}
use quantum_control.Config.{
  ControlConfig, BrokerConfig, Parsers, ConfigError, millisecond, invalid_listen,
  short_broker_token, short_api_token, relative_socket, relative_actor_file, relative_audit_path,
  relative_grant_path, relative_policy_file, invalid_plan_ttl, invalid_grant_ttl,
  invalid_body_limit, invalid_timeouts, invalid_transaction_timeout, invalid_poll_interval,
  open_listener,
}

-- filepath.IsAbs on Unix
unfoldable pub is_abs : Text → Bool
is_abs [] = false
is_abs (b ∷ rest) = eqb b b'/'

abbrev is_bracket : ℕ → Bool
is_bracket b = eqb b b'[' || eqb b b']'

unfoldable pub drop_brackets : Text → Text
drop_brackets [] = []
drop_brackets (b ∷ rest) =
    let inner = drop_brackets rest in if is_bracket b then inner else b ∷ rest

-- strings.Trim(host, "[]")
abbrev pub trim_brackets : Text → Text
trim_brackets host = reverse (drop_brackets (reverse (drop_brackets host)))

-- The test of a host in isLoopbackListen.
abbrev is_loopback_host : Parsers → Text → Bool
is_loopback_host parsers host =
    equal_fold_ascii host (text "localhost") || parsers.is_loopback_ip host

-- isLoopbackListen
unfoldable pub is_loopback_listen : Parsers → Text → Bool
is_loopback_listen parsers address = elim (parsers.split_host_port address) [
  | none ↦ false
  | some (host, port) ↦ is_loopback_host parsers (trim_space (trim_brackets host))
]

-- Control.Validate
unfoldable pub validate_control : Parsers → ControlConfig → Result ConfigError (Unit {0})
validate_control parsers c = do
  address ← or_fail (parsers.split_host_port c.listen) invalid_listen
  require (is_abs c.broker_socket) relative_socket
  refuse (ltb (length c.broker_token) 32) short_broker_token
  refuse (not (c.api_token == []) && ltb (length c.api_token) 32) short_api_token
  refuse (not (c.actor_file == []) && not (is_abs c.actor_file)) relative_actor_file
  require (is_abs c.audit_path) relative_audit_path
  refuse (not_positive c.plan_ttl || above c.plan_ttl (15 * minute)) invalid_plan_ttl
  refuse (below c.request_body_limit 1024) invalid_body_limit
  refuse
      (not_positive c.header_timeout
        || not_positive c.idle_timeout
        || not_positive c.broker_timeout)
      invalid_timeouts
  refuse (not (is_loopback_listen parsers c.listen) && c.api_token == [] && c.actor_file == [])
      open_listener

-- Broker.Validate
unfoldable pub validate_broker : BrokerConfig → Result ConfigError (Unit {0})
validate_broker c = do
  require (is_abs c.socket_path) relative_socket
  refuse (ltb (length c.broker_token) 32) short_broker_token
  refuse (not (c.actor_file == []) && not (is_abs c.actor_file)) relative_actor_file
  require (is_abs c.grant_path) relative_grant_path
  refuse (not_positive c.grant_ttl || above c.grant_ttl (15 * minute)) invalid_grant_ttl
  refuse (not (c.service_policy_file == []) && not (is_abs c.service_policy_file))
      relative_policy_file
  refuse (below c.transaction_timeout second || above c.transaction_timeout (2 * minute))
      invalid_transaction_timeout
  refuse
      (below c.service_poll_interval (10 * millisecond)
        || above c.service_poll_interval (5 * second))
      invalid_poll_interval
  refuse (below c.request_body_limit 1024) invalid_body_limit
  refuse (not_positive c.header_timeout || not_positive c.idle_timeout) invalid_timeouts
