-- ===== src/Security/Actor.antt =====
-- internal/security/auth.go: roles, permissions and the normalisation of an actor.
pub mod Laws
use quantum_control.Prelude.{
  ℕ, zero, suc, ◌+◌, ◌-◌, ◌*◌, ◌≤◌, ◌<◌, min, ◌≡◌, refl, sym, ap, ap₂, subst, ◌∙◌, ◌≢◌, ◌↔◌, ◌⊎◌,
  inl, inr, Bool, true, false, ◌&&◌, ◌||◌, not, Option, none, some, List, [], ◌∷◌, ◌++◌, map,
  reverse, arith, ltb, leb, eqb, eqb_iff, eqb_refl, if◌then◌else◌, Bool-cases, Option-cases,
  Bool-ext, Result, ok, err, ◌>>=◌, ◌>>◌, require, refuse, or_fail, Result-cases, length, take, All,
  All-append, All-map, length-append, length-take,
}
use quantum_control.Text.{Text, text, ◌==◌, eq_iff, eq_refl, eq_comm}
use quantum_control.Text.Trim.{trim_space}
use quantum_control.Text.Sort.{contains, sort, unique}
use quantum_control.Security.Types.{
  Actor, ActorKind, Permission, actor_human, actor_service, actor_tci, control_read, inventory_read,
  operation_catalog, operation_plan, operation_execute, operation_mutate, audit_read, confirm,
  tci_propose,
}

between : ℕ → ℕ → ℕ → Bool
between lo hi b = leb lo b && leb b hi

is_lower : ℕ → Bool
unfolding between
is_lower = between 97 122

is_digit : ℕ → Bool
unfolding between
is_digit = between 48 57

pub is_alnum : ℕ → Bool
unfolding between is_lower is_digit
is_alnum b = between 65 90 b || is_lower b || is_digit b

-- [a-z0-9.-]
is_namespace : ℕ → Bool
unfolding is_lower is_digit
is_namespace b = is_lower b || is_digit b || eqb b b'.' || eqb b b'-'

-- [A-Za-z0-9_.@:-]
pub is_subject : ℕ → Bool
unfolding is_alnum
is_subject b = is_alnum b || eqb b b'_' || eqb b b'.' || eqb b b'@' || eqb b b':' || eqb b b'-'

pub all_bytes : (ℕ → Bool) → Text → Bool
all_bytes p [] = true
all_bytes p (b ∷ r) = p b && all_bytes p r

-- [A-Za-z0-9][A-Za-z0-9_.@:-]{0,max}
pub matches_subject : ℕ → Text → Bool
unfolding is_alnum is_subject all_bytes
matches_subject max [] = false
matches_subject max (b ∷ r) = is_alnum b && all_bytes is_subject r && leb (length r) max

-- [a-z0-9.-]{1,31}: and the subject, after n bytes of the namespace.
matches_namespace : ℕ → Text → Bool
unfolding is_namespace matches_subject
matches_namespace n [] = false
matches_namespace n (b ∷ r) =
    if eqb b b':'
    then leb 1 n && leb n 31 && matches_subject 95 r
    else is_namespace b && matches_namespace (n + 1) r

-- actorIDPattern
unfoldable pub matches_actor_id : Text → Bool
unfolding is_lower matches_namespace
matches_actor_id [] = false
matches_actor_id (b ∷ r) = is_lower b && matches_namespace 0 r

-- rolePermissions
unfoldable pub role_permissions : Text → Option (List Permission)
role_permissions role =
    if role == text "reader"
    then some (control_read ∷ inventory_read ∷ operation_catalog ∷ [])
    else if role == text "operator"
    then some (
        control_read ∷ inventory_read ∷ operation_catalog ∷ operation_plan ∷ operation_execute ∷ [])
    else if role == text "mutator"
    then some (
        control_read ∷ inventory_read ∷ operation_catalog ∷ operation_plan ∷ operation_execute
        ∷ operation_mutate ∷ [])
    else if role == text "auditor"
    then some (control_read ∷ audit_read ∷ [])
    else if role == text "approver"
    then some (
        control_read ∷ inventory_read ∷ operation_catalog ∷ operation_plan ∷ operation_execute
        ∷ audit_read ∷ confirm ∷ [])
    else if role == text "tci-proposer"
    then some
        (control_read ∷ inventory_read ∷ operation_catalog ∷ operation_plan ∷ tci_propose ∷ [])
    else if role == text "service"
    then some (
        control_read ∷ inventory_read ∷ operation_catalog ∷ operation_plan ∷ operation_execute
        ∷ audit_read ∷ [])
    else none

-- HasPermission
unfoldable pub has_permission : Actor → Permission → Bool
has_permission actor permission = contains permission actor.permissions

pub data ActorError : Type 0 where
  invalid_id invalid_display_name no_roles : ActorError
  unsupported_kind unknown_role elevated_role : Text → ActorError
  tci_confirmation tci_mutation : ActorError

-- The loop over the sorted roles: the permissions of all of them, in order.
unfoldable pub collect_permissions : ActorKind → List Text → Result ActorError (List Permission)
collect_permissions kind [] = ok []
collect_permissions kind (role ∷ roles) = do
  granted ← or_fail (role_permissions role) (unknown_role role)
  refuse (kind == actor_tci && not (role == text "tci-proposer") && not (role == text "reader"))
      (elevated_role role)
  rest ← collect_permissions kind roles
  ok (granted ++ rest)

abbrev known_kind : ActorKind → Bool
known_kind kind = kind == actor_human || kind == actor_service || kind == actor_tci

-- normalizeActor, which returns the actor that the source writes through its pointer. The callers
-- drop the actor after an error.
unfoldable pub normalize_actor : Actor → Result ActorError Actor
normalize_actor actor = do
  let id = trim_space actor.id
  let display_name = trim_space actor.display_name
  require (matches_actor_id id) invalid_id
  require (known_kind actor.kind) (unsupported_kind actor.kind)
  refuse (display_name == [] || ltb 160 (length display_name)) invalid_display_name
  refuse (eqb (length actor.roles) 0) no_roles
  let roles = unique (sort actor.roles)
  collected ← collect_permissions actor.kind roles
  let permissions = unique (sort collected)
  refuse (actor.kind == actor_tci && contains confirm permissions) tci_confirmation
  refuse (actor.kind == actor_tci && contains operation_mutate permissions) tci_mutation
  ok (record {
    id = id;
    kind = actor.kind;
    display_name = display_name;
    roles = roles;
    permissions = permissions;
  })

-- LocalReadOnlyActor and LegacyServiceActor before they are normalised.
abbrev built_in : Text → Text → Text → Actor
built_in id name role = record {
  id = id;
  kind = actor_service;
  display_name = name;
  roles = role ∷ [];
  permissions = [];
}

-- `_ = normalizeActor(&actor)`
abbrev pub or_keep : Actor → Result ActorError Actor → Actor
or_keep a (ok b) = b
or_keep a (err e) = a

unfoldable pub local_read_only_actor : Actor
unfolding normalize_actor
local_read_only_actor =
    let actor : Actor =
      built_in (text "service:loopback-readonly") (text "Loopback read-only bootstrap")
        (text "operator") in
    or_keep actor (normalize_actor actor)

unfoldable pub legacy_service_actor : Actor
unfolding normalize_actor
legacy_service_actor =
    let actor : Actor =
      built_in (text "service:legacy-api-token") (text "Legacy Quantum Control API token")
        (text "service") in
    or_keep actor (normalize_actor actor)
