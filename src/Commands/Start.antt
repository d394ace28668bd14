-- ===== src/Commands/Start.antt =====
-- The start of the broker against its parts.
use quantum_control.Prelude.{
  subst, ◌≡◌, refl, sym, ap, ◌∙◌, ◌≢◌, inl, inr, true, false, Option, none, some, List, [], ◌∷◌,
  map, arith, if◌then◌else◌, Bool-cases, Option-cases, ok, Result-cases, ok-injective,
}
use quantum_control.Text.{text, Text, ◌==◌, eq_iff, eq_refl}
use quantum_control.Text.Trim.{trim_space}
use quantum_control.Text.Sort.{contains, contains-sort}
use quantum_control.Text.Trim.{trim_space_begins}
use mathlib.Core.Bool.{false≢true}
use quantum_control.Protocol.{
  Risk, risk_low, risk_high, ParameterDefinition, lookup, insert, lookup-insert,
}
use quantum_control.Security.Digest.{Sha256}
use quantum_control.Security.Auth.{Authenticator}
use quantum_control.Security.Grants.{GrantState, load, open_grant_store}
use quantum_control.ServiceControl.Policy.{
  Policy, ServiceSpec, load_policy, spec, allows, allowed_units,
}
use quantum_control.Broker.Registry.{Registry, RegisteredOperation, run_transaction, new_registry}
use quantum_control.Broker.Mutations.{add_targets, enable_service_mutations}
use quantum_control.Config.{BrokerConfig, Parsers}
use quantum_control.Config.Valid.{is_abs, validate_broker}
use quantum_control.Config.Valid.Laws.{valid_broker_bounds}
use quantum_control.Config.Load.{Environment, load_broker}
use quantum_control.Config.Load.Laws.{load_broker_valid}
use quantum_control.Commands.{
  SecurityBoundary, Files, load_actors, load_mutation_security, start_broker,
}

-- The unit's target of a policy.
abbrev pub url_of : Option ServiceSpec → Option Text → Option Text
url_of none other = other
url_of (some s) other = some s.health_url

-- The loop over units of the policy does not fail, and writes the policy's URLs.
add_targets_exact :
    (policy : Policy) (units : List Text) (targets : List (Text × Text))
    → ((u : Text) → contains u units ≡ true → spec policy u ≢ none)
    → (all : List (Text × Text)) × (add_targets policy units targets ≡ ok all)
      × ((u : Text)
          → lookup u all
            ≡ (if contains u units then url_of (spec policy u) none else lookup u targets))
unfolding add_targets contains
add_targets_exact policy [] targets k = (targets, refl, λ u. refl)
add_targets_exact policy (unit ∷ rest) targets k = elim (Option-cases (spec policy unit)) [
  | inl n ↦ absurd (k unit (ground (arith, eq_refl unit)) n)
  | inr (s, n) ↦
      let written = insert unit s.health_url targets in
      let (all, run, found) = add_targets_exact policy rest written (λ u c. k u (ground arith)) in
      (
        all,
        rw n run,
        λ u.
            found u
            ∙ ap (λ o. if contains u rest then url_of (spec policy u) none else o)
                (lookup-insert unit u s.health_url targets)
            ∙ ground (arith, eq_iff unit u, eq_iff u unit, n),
      )
]

keys-lookup :
    (policy : Policy) (u : Text) → contains u (map (λ entry. entry.0) policy) ≡ allows policy u
unfolding contains allows lookup
keys-lookup [] u = refl
keys-lookup ((unit, s) ∷ rest) u = ground (arith, keys-lookup rest u)

allowed_units-allows :
    (policy : Policy) (u : Text) → contains u (allowed_units policy) ≡ allows policy u
unfolding allowed_units
allowed_units-allows policy u =
    contains-sort u (map (λ entry. entry.0) policy) ∙ keys-lookup policy u

allowed_spec :
    (policy : Policy) (u : Text) → contains u (allowed_units policy) ≡ true → spec policy u ≢ none
unfolding allows
allowed_spec policy u c n =
    false≢true (sym (rw (allows, n) refl) ∙ sym (allowed_units-allows policy u) ∙ c)

url_of_allowed :
    (policy : Policy) (u : Text)
    → (if contains u (allowed_units policy) then url_of (spec policy u) none else none)
      ≡ url_of (spec policy u) none
unfolding allows
url_of_allowed policy u = elim (Option-cases (spec policy u)) [
  | inl n ↦ rw (allowed_units-allows policy u, allows, n) refl
  | inr (s, n) ↦ rw (allowed_units-allows policy u, allows, n) refl
]

absolute_nonblank : (path : Text) → is_abs path ≡ true → (trim_space path == []) ≡ false
unfolding is_abs
absolute_nonblank [] a = absurd (ground arith)
absolute_nonblank (b ∷ rest) a = elim (Bool-cases (trim_space (b ∷ rest) == [])) [
  | inr e ↦ e
  | inl e ↦ absurd (trim_space_begins b rest (ground arith) ((eq_iff _ _).0 e))
]

targets_of :
    (policy : Policy)
    → (all : List (Text × Text)) × (add_targets policy (allowed_units policy) [] ≡ ok all)
      × ((u : Text) → lookup u all ≡ url_of (spec policy u) none)
unfolding lookup
targets_of policy =
    let (all, run, found) =
      add_targets_exact policy (allowed_units policy) [] (allowed_spec policy) in
    (all, run, λ u. found u ∙ url_of_allowed policy u)

-- A mutation of a registry: its action is registered with its transaction, it needs a confirmation,
-- and its one parameter is a unit of the policy.
pub record IsEnabled (policy : Policy) (registry : Registry) (action : Text) (level : Risk)
    : Type 0 where
  pub operation : RegisteredOperation
  pub unit : ParameterDefinition
  pub found : lookup action registry.operations ≡ some operation
  pub handler : operation.handler ≡ run_transaction action
  pub named : operation.definition.action ≡ action
  pub risk : operation.definition.risk ≡ level
  pub confirmed : operation.definition.requires_confirmation ≡ true
  pub implemented : operation.definition.implemented ≡ true
  pub parameters : operation.definition.parameters ≡ unit ∷ []
  pub unit_name : unit.name ≡ text "unit"
  pub unit_required : unit.required ≡ true
  pub units : unit.allowed_values ≡ some (allowed_units policy)

-- The three mutations.
abbrev pub AreEnabled : Policy → Registry → Type 0
AreEnabled policy registry =
    IsEnabled policy registry (text "service.start") risk_low
    × IsEnabled policy registry (text "service.stop") risk_high
    × IsEnabled policy registry (text "service.restart") risk_low

-- Neither the bounds of the transactions nor a unit of the policy stop the mutations, where the
-- configuration is valid.
enabled :
    (config : BrokerConfig) (policy : Policy)
    → validate_broker config ≡ ok tt
    → (registry : Registry) × (enable_service_mutations true true policy config.transaction_timeout
          config.service_poll_interval new_registry
        ≡ ok registry)
      × ((u : Text) → lookup u registry.service_targets ≡ url_of (spec policy u) none)
      × AreEnabled policy registry
unfolding enable_service_mutations lookup insert text ◌==◌ new_registry
enabled config policy valid =
    let (grants, timeout, interval) = valid_broker_bounds config valid in
    let (all, run, found) = targets_of policy in
    elim (Result-cases (
      enable_service_mutations true true policy config.transaction_timeout
        config.service_poll_interval new_registry)) [
          | inr (x, e) ↦ absurd (ground arith)
          | inl (registry, e) ↦ (
            registry,
            e,
            λ u.
                ap (λ (r : Registry). lookup u r.service_targets)
                  (sym (ok-injective (rw (enable_service_mutations, timeout, interval, run) at e)))
                ∙ found u,
            subst (AreEnabled policy)
                (ok-injective (rw (enable_service_mutations, timeout, interval, run) at e))
                (
                  record {
                    operation = _;
                    unit = _;
                    found = refl;
                    handler = refl;
                    named = refl;
                    risk = refl;
                    confirmed = refl;
                    implemented = refl;
                    parameters = refl;
                    unit_name = refl;
                    unit_required = refl;
                    units = refl;
                  },
                  record {
                    operation = _;
                    unit = _;
                    found = refl;
                    handler = refl;
                    named = refl;
                    risk = refl;
                    confirmed = refl;
                    implemented = refl;
                    parameters = refl;
                    unit_name = refl;
                    unit_required = refl;
                    units = refl;
                  },
                  record {
                    operation = _;
                    unit = _;
                    found = refl;
                    handler = refl;
                    named = refl;
                    risk = refl;
                    confirmed = refl;
                    implemented = refl;
                    parameters = refl;
                    unit_name = refl;
                    unit_required = refl;
                    units = refl;
                  },
                ),
          )
        ]

absolute_grant_path : (c : BrokerConfig) → validate_broker c ≡ ok tt → is_abs c.grant_path ≡ true
unfolding validate_broker
absolute_grant_path c v = ground arith

module _ (h : Sha256) (files : Files) (parsers : Parsers) (env : Environment) where
  -- The broker starts, and no check of its parts fails that its configuration has passed: if the
  -- configuration loads, the policy and the grants load from their files, and the actors load where
  -- an actor file is configured, then the grant store opens, start, stop and restart are registered
  -- with their transactions, need a confirmation and a unit of the policy, and the targets are the
  -- services of the policy with their health URLs.
  pub broker_starts :
      (config : BrokerConfig) (policy : Policy) (state : GrantState) (actors : Option Authenticator)
      → load_broker parsers env ≡ ok config
      → load_policy files.decode_policy config.service_policy_file files.policy ≡ ok policy
      → load files.decode_grants files.grants ≡ ok state
      → load_actors h files config ≡ ok actors
      → (registry : Registry) × (boundary : SecurityBoundary) × (start_broker h files parsers env
          ≡ ok (registry, boundary, config))
        × (boundary.actors ≡ actors)
        × (boundary.grants.state ≡ state)
        × ((u : Text) → lookup u registry.service_targets ≡ url_of (spec policy u) none)
        × AreEnabled policy registry
  unfolding start_broker load_mutation_security open_grant_store
  broker_starts config policy state actors loaded p g a =
      let valid = load_broker_valid parsers env config loaded in
      let (registry, run, targets, mutations) = enabled config policy valid in
      (
        registry,
        record {
          actors = actors;
          grants = record { path = config.grant_path; ttl = config.grant_ttl; state = state };
        },
        rw (loaded, p, opened config state valid g, a, run) refl,
        refl,
        refl,
        targets,
        mutations,
      )
    where
      opened :
          (c : BrokerConfig) (s : GrantState)
          → validate_broker c ≡ ok tt
          → load files.decode_grants files.grants ≡ ok s
          → open_grant_store files.decode_grants c.grant_path c.grant_ttl files.grants
            ≡ ok (record { path = c.grant_path; ttl = c.grant_ttl; state = s })
      opened c s v l =
          let (ttl, timeout, interval) = valid_broker_bounds c v in
          rw (open_grant_store, absolute_nonblank c.grant_path (absolute_grant_path c v), ttl, l)
            refl
