-- ===== src/Control/Dependencies.antt =====
-- internal/control/security.go: LoadSecurityDependencies and the default dependencies.
use quantum_control.Prelude.{
  ◌*◌, Option, none, some, List, [], ◌∷◌, ◌++◌, if◌then◌else◌, Result, ok, err, ◌>>=◌,
}
use quantum_control.Text.{Text, ◌==◌}
use quantum_control.Prelude.Int.{pos}
use quantum_control.Clock.{minute}
use quantum_control.Security.Types.{ActorCredential, ActorRegistry}
use quantum_control.Security.Actor.{ActorError, legacy_service_actor}
use quantum_control.Security.Digest.{Sha256}
use quantum_control.Security.Auth.{
  Authenticator, RegistryError, authenticate_multi, load_actor_registry, authenticate_bearer,
  new_static_authenticator,
}
use quantum_control.Security.Cache.{new_plan_cache}
use quantum_control.Security.Grants.{ReadFile}
use quantum_control.Security.Audit.{AuditCodec, AuditError, open_audit_store}
use quantum_control.Config.{ControlConfig}
use quantum_control.Control.Server.{SecurityDependencies}

pub data DependencyError : Type 0 where
  registry_failed : RegistryError → DependencyError
  legacy_blank : DependencyError
  legacy_failed : ActorError → DependencyError
  audit_failed : AuditError → DependencyError

abbrev registry_failure {ℓ} : {A : Type ℓ} → Result RegistryError A → Result DependencyError A
registry_failure (ok a) = ok a
registry_failure (err e) = err (registry_failed e)

abbrev audit_failure {ℓ} : {A : Type ℓ} → Result AuditError A → Result DependencyError A
audit_failure (ok a) = ok a
audit_failure (err e) = err (audit_failed e)

abbrev legacy_failure {ℓ} : {A : Type ℓ} → Option (Result ActorError A) → Result DependencyError A
legacy_failure none = err legacy_blank
legacy_failure (some (ok a)) = ok a
legacy_failure (some (err e)) = err (legacy_failed e)

module _ (h : Sha256) where
  -- The authenticator of the registry, where an actor file is configured.
  unfoldable pub registry_authenticators :
      (Text → Option ActorRegistry)
      → Option Text
      → ControlConfig
      → Result DependencyError (List (Option Authenticator))
  registry_authenticators decode file config = if config.actor_file == [] then ok [] else (do
    credentials ← registry_failure (load_actor_registry decode file)
    ok (some (authenticate_bearer h credentials) ∷ []))

  -- The authenticator of the API token, where one is configured.
  unfoldable pub legacy_authenticators :
      ControlConfig → Result DependencyError (List (Option Authenticator))
  legacy_authenticators config = if config.api_token == [] then ok [] else (do
    credentials ← legacy_failure (new_static_authenticator h legacy_service_actor config.api_token)
    ok (some (authenticate_bearer h credentials) ∷ []))

  -- A list without authenticators stays a nil interface.
  abbrev pub multi_or_nil : List (Option Authenticator) → Option Authenticator
  multi_or_nil [] = none
  multi_or_nil (a ∷ rest) = some (authenticate_multi (a ∷ rest))

  -- LoadSecurityDependencies, over what the reads of the actor file and of the audit file give.
  unfoldable pub load_security_dependencies :
      AuditCodec
      → (Text → Option ActorRegistry)
      → Option Text
      → ReadFile
      → ControlConfig
      → Result DependencyError SecurityDependencies
  load_security_dependencies codec decode actors file config = do
    registry ← registry_authenticators decode actors config
    legacy ← legacy_authenticators config
    audit ← audit_failure (open_audit_store h codec config.audit_path file)
    ok (record {
      authenticator = multi_or_nil (registry ++ legacy);
      audit = some audit;
      plans = some new_plan_cache;
      ttl = config.plan_ttl;
    })

  abbrev static_or_nil : Option (Result ActorError (List ActorCredential)) → Option Authenticator
  static_or_nil none = none
  static_or_nil (some (ok credentials)) = some (authenticate_bearer h credentials)
  static_or_nil (some (err e)) = none

  -- defaultSecurityDependencies
  unfoldable pub default_security_dependencies : ControlConfig → SecurityDependencies
  default_security_dependencies config = record {
    authenticator =
        if config.api_token == []
        then none
        else static_or_nil (new_static_authenticator h legacy_service_actor config.api_token);
    audit = none;
    plans = some new_plan_cache;
    ttl = pos (5 * minute);
  }
