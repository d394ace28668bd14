-- ===== src/Config/Load/Laws.antt =====
-- A configuration that is loaded has passed its validation.
use quantum_control.Prelude.{◌*◌, ◌≡◌, refl, subst, arith, Result, ok, err, ◌>>◌, ok-injective}
use quantum_control.Text.{text}
use quantum_control.Prelude.{bind_inv}
use quantum_control.Prelude.Int.{pos}
use quantum_control.Clock.{second, minute}
use quantum_control.Config.{
  ControlConfig, BrokerConfig, Parsers, ConfigError, default_body_limit,
  default_transaction_timeout, default_service_poll,
}
use quantum_control.Config.Valid.{validate_control, validate_broker}
use quantum_control.Config.Load.{
  Environment, load_control, load_broker, load_broker_token, env_int64, env_duration,
}

validated {ℓ} :
    {A : Type ℓ} (v : Result ConfigError (Unit {0})) (c c' : A)
    → (v >> ok c) ≡ ok c'
    → (v ≡ ok tt) × (c ≡ c')
validated (ok u) c c' e = (refl, ok-injective e)
validated (err x) c c' e = absurd (ground arith)

module _ (parsers : Parsers) (env : Environment) where
  pub load_control_valid :
      (c : ControlConfig) → load_control parsers env ≡ ok c → validate_control parsers c ≡ ok tt
  unfolding load_control
  load_control_valid c e =
      let (token, p1, e1) = bind_inv (load_broker_token env) _ c e in
      let (limit, p2, e2) =
        bind_inv
          (env_int64 parsers env (text "QUANTUM_CONTROL_REQUEST_BODY_LIMIT") default_body_limit) _ c
          e1 in
      let (header, p3, e3) =
        bind_inv
          (env_duration parsers env (text "QUANTUM_CONTROL_HEADER_TIMEOUT") (pos (10 * second))) _ c
          e2 in
      let (idle, p4, e4) =
        bind_inv
          (env_duration parsers env (text "QUANTUM_CONTROL_IDLE_TIMEOUT") (pos (90 * second))) _ c
          e3 in
      let (broker, p5, e5) =
        bind_inv
          (env_duration parsers env (text "QUANTUM_CONTROL_BROKER_TIMEOUT") (pos (15 * second))) _ c
          e4 in
      let (ttl, p6, e6) =
        bind_inv (env_duration parsers env (text "QUANTUM_CONTROL_PLAN_TTL") (pos (5 * minute))) _ c
          e5 in
      let (valid, same) = validated _ _ c e6 in
      subst (λ d. validate_control parsers d ≡ ok tt) same valid

  pub load_broker_valid :
      (c : BrokerConfig) → load_broker parsers env ≡ ok c → validate_broker c ≡ ok tt
  unfolding load_broker
  load_broker_valid c e =
      let (token, p1, e1) = bind_inv (load_broker_token env) _ c e in
      let (limit, p2, e2) =
        bind_inv
          (env_int64 parsers env (text "QUANTUM_CONTROL_BROKER_REQUEST_BODY_LIMIT")
            default_body_limit)
          _ c e1 in
      let (header, p3, e3) =
        bind_inv
          (env_duration parsers env (text "QUANTUM_CONTROL_BROKER_HEADER_TIMEOUT")
            (pos (10 * second)))
          _ c e2 in
      let (idle, p4, e4) =
        bind_inv
          (env_duration parsers env (text "QUANTUM_CONTROL_BROKER_IDLE_TIMEOUT")
            (pos (30 * second)))
          _ c e3 in
      let (grant, p5, e5) =
        bind_inv (env_duration parsers env (text "QUANTUM_CONTROL_GRANT_TTL") (pos (2 * minute))) _
          c e4 in
      let (transaction, p6, e6) =
        bind_inv
          (env_duration parsers env (text "QUANTUM_CONTROL_TRANSACTION_TIMEOUT")
            default_transaction_timeout)
          _ c e5 in
      let (poll, p7, e7) =
        bind_inv
          (env_duration parsers env (text "QUANTUM_CONTROL_SERVICE_POLL_INTERVAL")
            default_service_poll)
          _ c e6 in
      let (valid, same) = validated _ _ c e7 in subst (λ d. validate_broker d ≡ ok tt) same valid
