-- ===== src/ServiceControl/Policy.antt =====
-- internal/servicecontrol/policy.go: the compiled services and the deployment policy, which is read
-- with the JSON decoder as an argument.
pub mod Laws
use quantum_control.Prelude.{
  ℕ, zero, suc, ◌+◌, ◌-◌, ◌*◌, ◌%◌, ◌^◌, ◌≤◌, ◌<◌, min, ◌≡◌, refl, sym, ap, ap₂, subst, ◌∙◌, ◌≢◌,
  ◌↔◌, ◌⊎◌, inl, inr, Bool, true, false, ◌&&◌, ◌||◌, not, Option, none, some, List, [], ◌∷◌, ◌++◌,
  map, reverse, arith, ltb, leb, eqb, eqb_iff, eqb_refl, if◌then◌else◌, Bool-cases, Option-cases,
  Bool-ext, Result, ok, err, ◌>>=◌, ◌>>◌, require, refuse, or_fail, Result-cases, ok-injective,
  some_inj, length, take, All, All-append, All-map, length-append, length-take,
}
use quantum_control.Text.{Text, text, ◌==◌, eq_iff, eq_refl, eq_comm}
use quantum_control.Text.Trim.{trim_space}
use quantum_control.Text.Sort.{sort}
use quantum_control.Protocol.{lookup, insert}

abbrev pub policy_schema : Text
policy_schema = text "quantum.control/service-mutation-policy/v1alpha1"

pub record ServiceSpec : Type 0 where
  pub unit : Text
  pub health_url : Text

-- compiledServices
unfoldable pub compiled_services : List (Text × ServiceSpec)
compiled_services =
    (
      text "quantum-runtime.service",
      record {
        unit = text "quantum-runtime.service";
        health_url = text "http://127.0.0.1:11450/healthz";
      },
    )
    ∷ []

pub record PolicyFile : Type 0 where
  pub schema : Text
  pub allowed_units : List Text

abbrev pub Policy : Type 0
Policy = List (Text × ServiceSpec)

pub data PolicyError : Type 0 where
  unreadable too_large undecodable empty_unit : PolicyError
  unsupported_schema broadened : Text → PolicyError

abbrev pub default_policy : Policy
default_policy = compiled_services

-- The loop of LoadPolicy, which writes into the map it has so far.
unfoldable pub allow_units : List Text → Policy → Result PolicyError Policy
allow_units [] allowed = ok allowed
allow_units (raw ∷ rest) allowed = do
  let unit = trim_space raw
  refuse (unit == []) empty_unit
  spec ← or_fail (lookup unit compiled_services) (broadened unit)
  allow_units rest (insert unit spec allowed)

-- LoadPolicy; `file` is what the read of the path gives.
unfoldable pub load_policy :
    (Text → Option PolicyFile) → Text → Option Text → Result PolicyError Policy
load_policy decode path file = if trim_space path == [] then ok default_policy else (do
  content ← or_fail file unreadable
  refuse (ltb 1048576 (length content)) too_large
  document ← or_fail (decode content) undecodable
  require (document.schema == policy_schema) (unsupported_schema document.schema)
  allow_units document.allowed_units [])

-- Policy.Spec
abbrev pub spec : Policy → Text → Option ServiceSpec
spec policy unit = lookup unit policy

-- Policy.Allows
unfoldable pub allows : Policy → Text → Bool
allows policy unit = elim (lookup unit policy) [ none ↦ false | some s ↦ true ]

-- Policy.AllowedUnits
unfoldable pub allowed_units : Policy → List Text
allowed_units policy = sort (map (λ entry. entry.0) policy)
