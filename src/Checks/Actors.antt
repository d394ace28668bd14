-- ===== src/Checks/Actors.antt =====
-- internal/security/auth.go at concrete inputs.
use quantum_control.Prelude.{◌≡◌, refl, true, Option, none, some, List, [], ◌∷◌, if◌then◌else◌, ok}
use quantum_control.Text.{Text, text, ◌==◌}
use quantum_control.Text.Trim.{trim_space}
use quantum_control.Text.Hex
use quantum_control.Text.Case.{to_lower}
use quantum_control.Text.Order.{text_lt}
use quantum_control.Text.Sort.{contains, sort, unique, IsStrict}
use quantum_control.Security.Types.{
  Actor, ActorCredential, ActorRegistry, Permission, actor_schema, actor_tci, tci_propose,
}
use quantum_control.Security.Actor.{
  normalize_actor, has_permission, or_keep, matches_actor_id, collect_permissions, role_permissions,
}
use quantum_control.Security.Actor.Laws.{
  roles_grant, tci_permissions, normalize_permissions_exact, normalize_tci_restricted,
  normalize_idempotent,
}
use quantum_control.Security.Digest.{hex_digest, decode_sha256, all_zero}
use quantum_control.Security.Auth.{
  find_credential, normalize_credentials, load_actor_registry, authenticate_bearer,
  new_static_authenticator,
}
use quantum_control.Security.Auth.Laws.{
  AreLoaded, load_actor_registry-AreLoaded, authenticate_tci_restricted,
  new_static_authenticator_exact,
}
use quantum_control.Checks.Data.{sha, proposer}

abbrev pub normal : Actor
normal = or_keep proposer (normalize_actor proposer)

normal_eq : normalize_actor proposer ≡ ok normal
unfolding normalize_actor trim_space sort unique contains text ◌==◌ text_lt matches_actor_id
    collect_permissions role_permissions
normal_eq = refl

pub normal_tci : (normal.kind == actor_tci) ≡ true
unfolding normalize_actor trim_space sort unique contains text ◌==◌ text_lt matches_actor_id
    collect_permissions role_permissions
normal_tci = refl

normal_proposes : has_permission normal tci_propose ≡ true
unfolding has_permission normalize_actor trim_space sort unique contains text ◌==◌ text_lt
    matches_actor_id collect_permissions role_permissions
normal_proposes = refl

normalize_permissions_exact_example :
    ((p : Permission) → has_permission normal p ≡ roles_grant proposer.roles p)
    × ((r : Text) → contains r normal.roles ≡ contains r proposer.roles)
    × IsStrict normal.roles
normalize_permissions_exact_example = normalize_permissions_exact proposer normal normal_eq

normalize_tci_restricted_example : contains tci_propose tci_permissions ≡ true
normalize_tci_restricted_example =
    normalize_tci_restricted proposer normal tci_propose normal_eq normal_tci normal_proposes

normalize_idempotent_example : normalize_actor normal ≡ ok normal
normalize_idempotent_example = normalize_idempotent proposer normal normal_eq

abbrev pub file_text : Text
file_text = text "registry"

abbrev pub decode : Text → Option ActorRegistry
decode t = some (record {
  schema = actor_schema;
  actors = record { actor = proposer; token_sha256 = hex_digest sha (text "secret") } ∷ [];
})

abbrev pub loaded : List ActorCredential
loaded = record { actor = normal; token_sha256 = hex_digest sha (text "secret") } ∷ []

loaded_eq : load_actor_registry decode (some file_text) ≡ ok loaded
unfolding load_actor_registry normalize_credentials normalize_actor trim_space sort unique contains
    text ◌==◌ text_lt matches_actor_id collect_permissions role_permissions decode_sha256 Hex.encode
    Hex.decode to_lower all_zero
loaded_eq = refl

authenticated : authenticate_bearer sha loaded (text "secret") ≡ some normal
unfolding authenticate_bearer find_credential trim_space text ◌==◌ decode_sha256 Hex.encode
    Hex.decode to_lower
authenticated = refl

load_actor_registry-AreLoaded_example : AreLoaded [] loaded
load_actor_registry-AreLoaded_example =
    load_actor_registry-AreLoaded decode (some file_text) loaded loaded_eq

authenticate_tci_restricted_example : contains tci_propose tci_permissions ≡ true
authenticate_tci_restricted_example =
    authenticate_tci_restricted sha decode (some file_text) loaded (text "secret") normal
      tci_propose loaded_eq authenticated normal_tci normal_proposes

static_eq : new_static_authenticator sha proposer (text "secret") ≡ some (ok loaded)
unfolding new_static_authenticator normalize_actor trim_space sort unique contains text ◌==◌ text_lt
    matches_actor_id collect_permissions role_permissions
static_eq = refl

new_static_authenticator_exact_example :
    (a : Actor) × (normalize_actor proposer ≡ ok a)
    × (authenticate_bearer sha loaded (text "secret") ≡ some a)
    × ((token : Text)
        → authenticate_bearer sha loaded token ≡ (
            if trim_space token == []
            then none
            else if sha.sum token == sha.sum (text "secret")
            then some a
            else none))
new_static_authenticator_exact_example =
    new_static_authenticator_exact sha proposer (text "secret") loaded static_eq
