-- ===== src/Control/Roles.antt =====
-- The permissions that the loaded authenticators give to actors of the kind tci.
use quantum_control.Prelude.{
  ◌≡◌, refl, sym, ap, subst, ◌∙◌, ◌≢◌, inl, inr, true, false, Option, none, some, List, [], ◌∷◌,
  ◌++◌, arith, Bool-cases, Option-cases, ok, Result-cases, ok-injective, All, All-append,
}
use quantum_control.Text.{Text, text, ◌==◌}
use quantum_control.Text.Trim.{trim_space}
use quantum_control.Text.Prefix.{strip_prefix}
use quantum_control.Text.Sort.{contains, sort, unique}
use quantum_control.Security.Types.{Actor, ActorCredential, ActorRegistry, Permission, actor_tci}
use quantum_control.Security.Actor.{
  has_permission, local_read_only_actor, legacy_service_actor, normalize_actor, matches_actor_id,
  collect_permissions, role_permissions,
}
use mathlib.Core.Bool.{false≢true}
use quantum_control.Text.Order.{text_lt}
use quantum_control.Security.Actor.Laws.{tci_permissions, normalize_tci_restricted}
use quantum_control.Security.Digest.{Sha256}
use quantum_control.Security.Auth.{
  Authenticator, authenticate_multi, authenticate_bearer, load_actor_registry,
  new_static_authenticator,
}
use quantum_control.Security.Auth.Laws.{authenticate_tci_restricted, new_static_authenticator_exact}
use quantum_control.Security.Grants.{ReadFile}
use quantum_control.Security.Audit.{AuditCodec, open_audit_store}
use quantum_control.Config.{ControlConfig}
use quantum_control.Control.Server.{SecurityDependencies}
use quantum_control.Control.Auth.{authenticate_request}
use quantum_control.Control.Dependencies.{
  load_security_dependencies, registry_authenticators, legacy_authenticators, multi_or_nil,
}

local_read_only-kind : (local_read_only_actor.kind == actor_tci) ≡ false
unfolding local_read_only_actor normalize_actor trim_space text ◌==◌ matches_actor_id sort unique
    text_lt contains collect_permissions role_permissions
local_read_only-kind = refl

local_kind : (b : Actor) → local_read_only_actor ≡ b → (b.kind == actor_tci) ≢ true
local_kind b q k = false≢true (sym local_read_only-kind ∙ ap (λ a. a.kind == actor_tci) q ∙ k)

-- The authenticator gives actors of the kind tci none but the permissions of proposals.
abbrev pub Restricts : Authenticator → Type 0
Restricts actors =
    (token : Text) (a : Actor) (p : Permission)
    → actors token ≡ some a
    → (a.kind == actor_tci) ≡ true
    → has_permission a p ≡ true
    → contains p tci_permissions ≡ true

abbrev RestrictsSome : Option Authenticator → Type 0
RestrictsSome none = Unit {0}
RestrictsSome (some actors) = Restricts actors

multi-Restricts :
    (list : List (Option Authenticator))
    → All RestrictsSome list
    → Restricts (authenticate_multi list)
unfolding authenticate_multi
multi-Restricts [] r token a p e k g = absurd (ground arith)
multi-Restricts (none ∷ rest) r token a p e k g = multi-Restricts rest r.1 token a p e k g
multi-Restricts (some actors ∷ rest) r token a p e k g = elim (Option-cases (actors token)) [
  | inl n ↦ multi-Restricts rest r.1 token a p (rw n at e) k g
  | inr (b, n) ↦ r.0 token a p (n ∙ rw n at e) k g
]

module _ (h : Sha256) where
  registry-Restricts :
      (decode : Text → Option ActorRegistry) (file : Option Text) (config : ControlConfig)
      (list : List (Option Authenticator))
      → registry_authenticators h decode file config ≡ ok list
      → All RestrictsSome list
  unfolding registry_authenticators
  registry-Restricts decode file config list e = elim (Bool-cases (config.actor_file == [])) [
    | inl b ↦ subst (All RestrictsSome) (ok-injective (rw b at e)) tt
    | inr b ↦ elim (Result-cases (load_actor_registry decode file)) [
      | inr (x, l) ↦ absurd (ground arith)
      | inl (cs, l) ↦
          subst (All RestrictsSome) (ok-injective (rw (b, l) at e))
            (λ token a p. authenticate_tci_restricted h decode file cs token a p l, tt)
    ]
  ]

  legacy-Restricts :
      (config : ControlConfig) (list : List (Option Authenticator))
      → legacy_authenticators h config ≡ ok list
      → All RestrictsSome list
  unfolding legacy_authenticators
  legacy-Restricts config list e = elim (Bool-cases (config.api_token == [])) [
    | inl b ↦ subst (All RestrictsSome) (ok-injective (rw b at e)) tt
    | inr b ↦
        elim (Option-cases (new_static_authenticator h legacy_service_actor config.api_token)) [
          | inl n ↦ absurd (ground arith)
          | inr (inner, n) ↦ elim (Result-cases inner) [
            | inr (x, i) ↦ absurd (ground arith)
            | inl (cs, i) ↦
                subst (All RestrictsSome) (ok-injective (rw (b, n, i) at e))
                  (restricted cs (n ∙ ap some i), tt)
          ]
        ]
  ]
    where
      restricted :
          (cs : List ActorCredential)
          → new_static_authenticator h legacy_service_actor config.api_token ≡ some (ok cs)
          → Restricts (authenticate_bearer h cs)
      restricted cs n token a p t k g =
          let (b, normal, own, exact) =
            new_static_authenticator_exact h legacy_service_actor config.api_token cs n in
          normalize_tci_restricted legacy_service_actor a p (ground (arith, exact token)) k g

  module _ (codec : AuditCodec) (decode : Text → Option ActorRegistry) (actors : Option Text)
      (file : ReadFile) where
    -- What the dependencies are made of.
    pub dependencies_inv :
        (config : ControlConfig) (dependencies : SecurityDependencies)
        → load_security_dependencies h codec decode actors file config ≡ ok dependencies
        → (registry legacy : List (Option Authenticator)) × (registry_authenticators h decode actors
              config
            ≡ ok registry)
          × (legacy_authenticators h config ≡ ok legacy)
          × (dependencies.authenticator ≡ multi_or_nil h (registry ++ legacy))
    unfolding load_security_dependencies
    dependencies_inv config dependencies e =
        elim (Result-cases (registry_authenticators h decode actors config)) [
          | inr (x, r) ↦ absurd (ground arith)
          | inl (registry, r) ↦ elim (Result-cases (legacy_authenticators h config)) [
            | inr (x, l) ↦ absurd (ground arith)
            | inl (legacy, l) ↦
                elim (Result-cases (open_audit_store h codec config.audit_path file)) [
                  | inr (x, o) ↦ absurd (ground arith)
                  | inl (store, o) ↦ (registry, legacy, r, l, ground arith)
                ]
          ]
        ]

    multi_or_nil-Restricts :
        (list : List (Option Authenticator)) (header credential : Text) (a : Actor) (p : Permission)
        → All RestrictsSome list
        → authenticate_request (multi_or_nil h list) header ≡ some (a, credential)
        → (a.kind == actor_tci) ≡ true
        → has_permission a p ≡ true
        → contains p tci_permissions ≡ true
    unfolding authenticate_request
    multi_or_nil-Restricts [] header credential a p r e k g =
        elim (Bool-cases (trim_space header == [])) [
          | inl b ↦ absurd (local_kind a (ground arith) k)
          | inr b ↦ absurd (ground arith)
        ]
    multi_or_nil-Restricts (f ∷ rest) header credential a p r e k g =
        elim (Option-cases (strip_prefix (text "Bearer ") header)) [
          | inl n ↦ absurd (ground arith)
          | inr (token, n) ↦
              elim (Option-cases (authenticate_multi (f ∷ rest) (trim_space token))) [
                | inl m ↦ absurd (ground arith)
                | inr (b, m) ↦
                    multi-Restricts (f ∷ rest) r (trim_space token) a p (m ∙ ground arith) k g
              ]
        ]

    -- Whatever authenticators are loaded, they restrict actors of the kind tci.
    pub dependencies-Restricts :
        (config : ControlConfig) (dependencies : SecurityDependencies) (header credential : Text)
        (a : Actor) (p : Permission)
        → load_security_dependencies h codec decode actors file config ≡ ok dependencies
        → authenticate_request dependencies.authenticator header ≡ some (a, credential)
        → (a.kind == actor_tci) ≡ true
        → has_permission a p ≡ true
        → contains p tci_permissions ≡ true
    dependencies-Restricts config dependencies header credential a p load e k g =
        let (registry, legacy, r, l, shape) = dependencies_inv config dependencies load in
        multi_or_nil-Restricts (registry ++ legacy) header credential a p
          (All-append RestrictsSome registry legacy
            (registry-Restricts decode actors config registry r) (legacy-Restricts config legacy l))
          (ap (λ list. authenticate_request list header) (sym shape) ∙ e) k g
