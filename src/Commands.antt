-- ===== src/Commands.antt =====
-- cmd/qcored/main.go: the start of the broker's process up to its listener.
pub mod Start
use quantum_control.Prelude.{
  ℕ, zero, suc, ◌+◌, ◌-◌, ◌*◌, ◌%◌, ◌^◌, ◌≤◌, ◌<◌, min, ◌≡◌, refl, sym, ap, ap₂, subst, ◌∙◌, ◌≢◌,
  ◌↔◌, ◌⊎◌, inl, inr, Bool, true, false, ◌&&◌, ◌||◌, not, Option, none, some, List, [], ◌∷◌, ◌++◌,
  map, reverse, arith, ltb, leb, eqb, eqb_iff, eqb_refl, if◌then◌else◌, Bool-cases, Option-cases,
  Bool-ext, Result, ok, err, ◌>>=◌, ◌>>◌, require, refuse, or_fail, Result-cases, ok-injective,
  some_inj, length, take, All, All-append, All-map, length-append, length-take,
}
use quantum_control.Text.{Text, text, ◌==◌, eq_iff, eq_refl, eq_comm}
use quantum_control.Text.Trim.{trim_space}
use quantum_control.Text.Sort.{contains, contains-sort}
use quantum_control.Protocol.{lookup, insert}
use quantum_control.Security.Types.{ActorRegistry}
use quantum_control.Security.Digest.{Sha256}
use quantum_control.Security.Auth.{
  Authenticator, RegistryError, load_actor_registry, authenticate_bearer,
}
use quantum_control.Security.Grants.{
  GrantStore, GrantState, GrantError, ReadFile, load, open_grant_store,
}
use quantum_control.ServiceControl.Policy.{
  Policy, PolicyFile, PolicyError, load_policy, spec, allowed_units,
}
use quantum_control.Broker.Registry.{Registry, new_registry}
use quantum_control.Broker.Mutations.{EnableError, add_targets, enable_service_mutations}
use quantum_control.Config.{BrokerConfig, Parsers, ConfigError}
use quantum_control.Config.Valid.{is_abs, validate_broker}
use quantum_control.Config.Valid.Laws.{valid_broker_bounds}
use quantum_control.Config.Load.{Environment, load_broker}
use quantum_control.Config.Load.Laws.{load_broker_valid}

-- SecurityBoundary of a broker with a grant store.
pub record SecurityBoundary : Type 0 where
  pub actors : Option Authenticator
  pub grants : GrantStore

pub data StartError : Type 0 where
  configuration : ConfigError → StartError
  policy_failed : PolicyError → StartError
  grants_failed : GrantError → StartError
  actors_failed : RegistryError → StartError
  mutations_failed : EnableError → StartError

abbrev failure {ℓ κ} :
    {E : Type ℓ} {A : Type κ} → (E → StartError) → Result E A → Result StartError A
failure wrap (ok a) = ok a
failure wrap (err e) = err (wrap e)

-- The decoders of the three files, and what their reads give.
pub record Files : Type 0 where
  pub decode_policy : Text → Option PolicyFile
  pub decode_grants : Text → Option GrantState
  pub decode_actors : Text → Option ActorRegistry
  pub policy : Option Text
  pub grants : ReadFile
  pub actors : Option Text

module _ (h : Sha256) (files : Files) where
  -- The authenticator of loadMutationSecurity.
  unfoldable pub load_actors : BrokerConfig → Result StartError (Option Authenticator)
  load_actors config = if config.actor_file == [] then ok none else (do
    credentials ← failure actors_failed (load_actor_registry files.decode_actors files.actors)
    ok (some (authenticate_bearer h credentials)))

  -- loadMutationSecurity
  unfoldable pub load_mutation_security :
      BrokerConfig → Result StartError (SecurityBoundary × Policy)
  load_mutation_security config = do
    policy ←
        failure policy_failed
          (load_policy files.decode_policy config.service_policy_file files.policy)
    grants ←
        failure grants_failed
          (open_grant_store files.decode_grants config.grant_path config.grant_ttl files.grants)
    actors ← load_actors config
    ok (record { actors = actors; grants = grants }, policy)

  -- serve up to the listener, in an environment.
  unfoldable pub start_broker :
      Parsers → Environment → Result StartError (Registry × SecurityBoundary × BrokerConfig)
  start_broker parsers env = do
    config ← failure configuration (load_broker parsers env)
    (boundary, policy) ← load_mutation_security config
    registry ← failure mutations_failed (
        enable_service_mutations true true policy config.transaction_timeout
          config.service_poll_interval new_registry)
    ok (registry, boundary, config)
