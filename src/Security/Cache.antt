-- ===== src/Security/Cache.antt =====
-- internal/security/plan.go: the plan cache. The mutex makes each operation one step.
pub mod Laws
use quantum_control.Prelude.{
  ℕ, zero, suc, ◌+◌, ◌-◌, ◌*◌, ◌≤◌, ◌<◌, min, ◌≡◌, refl, sym, ap, ap₂, subst, ◌∙◌, ◌≢◌, ◌↔◌, ◌⊎◌,
  inl, inr, Bool, true, false, ◌&&◌, ◌||◌, not, Option, none, some, List, [], ◌∷◌, ◌++◌, map,
  reverse, arith, ltb, leb, eqb, eqb_iff, eqb_refl, if◌then◌else◌, Bool-cases, Option-cases,
  Bool-ext, Result, ok, err, ◌>>=◌, ◌>>◌, require, refuse, or_fail, Result-cases, ok-injective,
  length, take, All, All-append, All-map, length-append, length-take,
}
use quantum_control.Text.{Text, text, ◌==◌, eq_iff, eq_refl, eq_comm}
use quantum_control.Text.Trim.{trim_space}
use quantum_control.Clock.{Time, after}
use quantum_control.Protocol.{lookup, insert}
use quantum_control.Security.Types.{OperationPlan}

-- `plans`, keyed by the plan ID.
abbrev pub PlanCache : Type 0
PlanCache = List (Text × OperationPlan)

-- NewPlanCache
abbrev pub new_plan_cache : PlanCache
new_plan_cache = []

-- purgeExpiredLocked
unfoldable pub purge_expired : Time → PlanCache → PlanCache
purge_expired now [] = []
purge_expired now ((id, plan) ∷ rest) =
    let kept = purge_expired now rest in
    if after plan.expires_at now then (id, plan) ∷ kept else kept

-- PlanCache.Put
unfoldable pub put : Time → OperationPlan → PlanCache → PlanCache
put now plan cache = insert plan.id plan (purge_expired now cache)

-- PlanCache.Get
unfoldable pub get : Time → Text → PlanCache → Option OperationPlan × PlanCache
get now id cache = let purged = purge_expired now cache in (lookup id purged, purged)
