-- ===== src/Security/Plan.antt =====
-- internal/security/plan.go: the plan builder and the plan digest. json.Marshal of the canonical
-- record, with the RFC 3339 text of its instants, is an argument; `none` is its error.
pub mod Laws
pub mod Order
use quantum_control.Prelude.{
  ℕ, zero, suc, ◌+◌, ◌-◌, ◌*◌, ◌≤◌, ◌<◌, min, ◌≡◌, refl, sym, ap, ap₂, subst, ◌∙◌, ◌≢◌, ◌↔◌, ◌⊎◌,
  inl, inr, Bool, true, false, ◌&&◌, ◌||◌, not, Option, none, some, List, [], ◌∷◌, ◌++◌, map,
  reverse, arith, ltb, leb, eqb, eqb_iff, eqb_refl, if◌then◌else◌, Bool-cases, Option-cases,
  Bool-ext, Result, ok, err, ◌>>=◌, ◌>>◌, require, refuse, or_fail, Result-cases, ok-injective,
  length, take, All, All-append, All-map, length-append, length-take,
}
use quantum_control.Text.{Text, text, ◌==◌, eq_iff, eq_refl, eq_comm}
use quantum_control.Text.Trim.{trim_space}
use mathlib.Core.List.{foldl}
use quantum_control.Text.Hex
use quantum_control.Text.Case.{equal_fold}
use quantum_control.Text.Sort.{sort_by}
use quantum_control.Clock.{Time, Duration, minute, add}
use quantum_control.Prelude.Int.{pos, not_positive}
use quantum_control.Protocol
use quantum_control.Protocol.{StringMap}
use quantum_control.Security.Types.{Actor, ActorKind, Parameter, OperationPlan, plan_schema}
use quantum_control.Security.Digest.{Sha256, hex_digest}

-- What crypto/rand gives, or the decimal digits of the clock where it fails.
pub data Entropy : Type 0 where
  random : List ℕ → Entropy
  clock_digits : Text → Entropy

-- newSecurityID, and newID of the broker.
unfoldable pub new_id : Text → Entropy → Text
new_id name (random bytes) = name ++ (text "-" ++ Hex.encode bytes)
new_id name (clock_digits digits) = name ++ (text "-" ++ digits)

-- The anonymous struct of PlanDigest.
pub record CanonicalPlan : Type 0 where
  pub schema : Text
  pub id : Text
  pub request_id : Text
  pub session_id : Text
  pub actor_id : Text
  pub actor_kind : ActorKind
  pub action : Text
  pub parameters : List Parameter
  pub risk : Text
  pub requires_confirmation : Bool
  pub valid : Bool
  pub created_at : Time
  pub expires_at : Time
  pub error_code : Text

abbrev pub sort_parameters : List Parameter → List Parameter
sort_parameters = sort_by (λ p. p.name)

abbrev pub canonical_plan : OperationPlan → CanonicalPlan
canonical_plan plan = record {
  schema = plan.schema;
  id = plan.id;
  request_id = plan.request_id;
  session_id = plan.session_id;
  actor_id = plan.actor.id;
  actor_kind = plan.actor.kind;
  action = plan.action;
  parameters = sort_parameters plan.parameters;
  risk = plan.risk;
  requires_confirmation = plan.requires_confirmation;
  valid = plan.valid;
  created_at = plan.created_at;
  expires_at = plan.expires_at;
  error_code = plan.error_code;
}

-- `for name, value := range m`
abbrev pub to_parameters : StringMap → List Parameter
to_parameters = map (λ entry. record { name = entry.0; value = entry.1 })

-- PlanParametersMap
unfoldable pub plan_parameters_map : OperationPlan → StringMap
plan_parameters_map plan = foldl (λ m p. Protocol.insert p.name p.value m) [] plan.parameters

abbrev pub problem_code : Option Protocol.Problem → Text
problem_code none = []
problem_code (some p) = p.code

pub data PlanError : Type 0 where
  actor_required not_canonical : PlanError

-- PlanBuilder.Build before the digest, of a builder with the given TTL at the given instant.
unfoldable pub draft_plan :
    Duration → Time → Entropy → Actor → Text → Protocol.OperationPlan → OperationPlan
draft_plan ttl now entropy actor session plan = record {
  schema = plan_schema;
  id = new_id (text "plan") entropy;
  digest = [];
  request_id = plan.request.request_id;
  session_id = trim_space session;
  actor = actor;
  action = trim_space plan.request.action;
  parameters = sort_parameters (to_parameters plan.request.parameters);
  risk = plan.definition.risk;
  requires_confirmation = plan.requires_confirmation;
  valid = plan.valid;
  created_at = now;
  expires_at = add now (if not_positive ttl then pos (5 * minute) else ttl);
  error_code = problem_code plan.error;
}

-- What the encoder makes of a plan's canonical form.
abbrev pub PlanEncoder : Type 0
PlanEncoder = CanonicalPlan → Option Text

module _ (h : Sha256) (marshal : PlanEncoder) where
  abbrev digest_of : Option Text → Option Text
  digest_of none = none
  digest_of (some bytes) = some (hex_digest h bytes)

  -- PlanDigest
  unfoldable pub plan_digest : OperationPlan → Option Text
  plan_digest plan = digest_of (marshal (canonical_plan plan))

  abbrev same_digest : Option Text → Text → Bool
  same_digest none digest = false
  same_digest (some expected) digest =
      eqb (length expected) (length digest) && equal_fold expected digest

  -- VerifyPlanDigest
  unfoldable pub verify_plan_digest : OperationPlan → Bool
  verify_plan_digest plan = same_digest (plan_digest plan) plan.digest

  -- PlanBuilder.Build
  unfoldable pub build :
      Duration
      → Time
      → Entropy
      → Actor
      → Text
      → Protocol.OperationPlan
      → Result PlanError OperationPlan
  build ttl now entropy actor session plan = do
    refuse (trim_space actor.id == []) actor_required
    let draft = draft_plan ttl now entropy actor session plan
    digest ← or_fail (plan_digest draft) not_canonical
    ok (record draft { digest = digest })
