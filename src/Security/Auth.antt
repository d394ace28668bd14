-- ===== src/Security/Auth.antt =====
-- internal/security/auth.go: the actor registry and bearer authentication. The file's bytes and the
-- JSON decoder are arguments; a clone of an actor is the actor, since no value is changed in place.
pub mod Laws
use quantum_control.Prelude.{
  ℕ, zero, suc, ◌+◌, ◌-◌, ◌*◌, ◌≤◌, ◌<◌, min, ◌≡◌, refl, sym, ap, ap₂, subst, ◌∙◌, ◌≢◌, ◌↔◌, ◌⊎◌,
  inl, inr, Bool, true, false, ◌&&◌, ◌||◌, not, Option, none, some, List, [], ◌∷◌, ◌++◌, map,
  reverse, arith, ltb, leb, eqb, eqb_iff, eqb_refl, if◌then◌else◌, Bool-cases, Option-cases,
  Bool-ext, Result, ok, err, ◌>>=◌, ◌>>◌, require, refuse, or_fail, Result-cases, ok-injective,
  length, take, All, All-append, All-map, length-append, length-take,
}
use quantum_control.Text.{Text, text, ◌==◌, eq_iff, eq_refl, eq_comm}
use quantum_control.Text.Trim.{trim_space}
use quantum_control.Text.Hex
use quantum_control.Text.Sort.{contains}
use quantum_control.Security.Types.{Actor, ActorCredential, ActorRegistry, actor_schema}
use quantum_control.Security.Actor.{ActorError, normalize_actor}
use quantum_control.Security.Digest.{Sha256, hex_digest, decode_sha256, all_zero}

-- The interface Authenticator: AuthenticateBearer of a value that is not nil.
abbrev pub Authenticator : Type 0
Authenticator = Text → Option Actor

-- MultiAuthenticator.AuthenticateBearer; `none` in the list is a nil authenticator.
abbrev first_of_two : Option Actor → Option Actor → Option Actor
first_of_two (some a) r = some a
first_of_two none r = r

unfoldable pub authenticate_multi : List (Option Authenticator) → Text → Option Actor
authenticate_multi [] token = none
authenticate_multi (none ∷ rest) token = authenticate_multi rest token
authenticate_multi (some authenticator ∷ rest) token =
    first_of_two (authenticator token) (authenticate_multi rest token)

abbrev digest_matches : List ℕ → Option (List ℕ) → Bool
digest_matches provided none = false
digest_matches provided (some expected) = provided == expected

-- The loop over the credentials: an undecodable digest is passed over, and the comparison in
-- constant time is equality of bytes.
unfoldable pub find_credential : List ℕ → List ActorCredential → Option Actor
find_credential provided [] = none
find_credential provided (c ∷ cs) =
    let rest = find_credential provided cs in
    if digest_matches provided (decode_sha256 c.token_sha256) then some c.actor else rest

pub data RegistryError : Type 0 where
  unreadable too_large undecodable no_actors : RegistryError
  unsupported_schema duplicate_actor invalid_digest : Text → RegistryError
  bad_actor : ActorError → RegistryError

abbrev actor_failure {ℓ} : {A : Type ℓ} → Result ActorError A → Result RegistryError A
actor_failure (ok a) = ok a
actor_failure (err e) = err (bad_actor e)

-- The loop of LoadActorRegistry, over the actor IDs that it has seen.
unfoldable pub normalize_credentials :
    List Text → List ActorCredential → Result RegistryError (List ActorCredential)
normalize_credentials seen [] = ok []
normalize_credentials seen (c ∷ cs) = do
  actor ← actor_failure (normalize_actor c.actor)
  refuse (contains actor.id seen) (duplicate_actor actor.id)
  digest ← or_fail (decode_sha256 c.token_sha256) (invalid_digest actor.id)
  refuse (all_zero digest) (invalid_digest actor.id)
  rest ← normalize_credentials (actor.id ∷ seen) cs
  ok (record { actor = actor; token_sha256 = Hex.encode digest } ∷ rest)

-- LoadActorRegistry. `file` is `none` if the read fails.
unfoldable pub load_actor_registry :
    (Text → Option ActorRegistry) → Option Text → Result RegistryError (List ActorCredential)
load_actor_registry decode file = do
  content ← or_fail file unreadable
  refuse (ltb 1048576 (length content)) too_large
  registry ← or_fail (decode content) undecodable
  require (registry.schema == actor_schema) (unsupported_schema registry.schema)
  refuse (eqb (length registry.actors) 0) no_actors
  normalize_credentials [] registry.actors

module _ (h : Sha256) where
  -- RegistryAuthenticator.AuthenticateBearer.
  unfoldable pub authenticate_bearer : List ActorCredential → Authenticator
  unfolding find_credential
  authenticate_bearer credentials token =
      if trim_space token == [] then none else find_credential (h.sum token) credentials

  -- NewStaticAuthenticator; `none` is the error of a blank token.
  unfoldable pub new_static_authenticator :
      Actor → Text → Option (Result ActorError (List ActorCredential))
  new_static_authenticator actor raw =
      if trim_space raw == []
      then none
      else some do
        normal ← normalize_actor actor
        ok (record { actor = normal; token_sha256 = hex_digest h raw } ∷ [])
