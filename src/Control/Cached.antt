-- ===== src/Control/Cached.antt =====
-- The entries of the plan cache under its operations.
use quantum_control.Prelude.{◌≡◌, ap₂, subst, inl, inr, true, some, [], ◌∷◌, arith, Bool-cases, All}
use quantum_control.Text.{Text, ◌==◌, eq_iff}
use quantum_control.Clock.{Time}
use quantum_control.Protocol.{lookup, insert}
use quantum_control.Security.Types.{OperationPlan, plan_schema, operation_plan}
use quantum_control.Security.Actor.{has_permission}
use quantum_control.Security.Cache.{PlanCache, purge_expired}
use quantum_control.Security.Digest.{Sha256}
use quantum_control.Security.Plan.{PlanEncoder, verify_plan_digest}

module _ (h : Sha256) (marshal : PlanEncoder) where
  -- An entry of the cache: a plan under its ID, in the current schema, whose digest verifies, and
  -- that an actor with the permission to plan has made.
  pub record IsCached (entry : Text × OperationPlan) : Type 0 where
    pub key : entry.0 ≡ entry.1.id
    pub schema : entry.1.schema ≡ plan_schema
    pub verified : verify_plan_digest h marshal entry.1 ≡ true
    pub permitted : has_permission entry.1.actor operation_plan ≡ true

  abbrev pub AreCached : PlanCache → Type 0
  AreCached = All IsCached

  pub purge-AreCached : (now : Time) (c : PlanCache) → AreCached c → AreCached (purge_expired now c)
  unfolding purge_expired
  purge-AreCached now [] a = a
  purge-AreCached now ((id, plan) ∷ rest) a = ground (arith, purge-AreCached now rest a.1)

  pub insert-AreCached :
      (id : Text) (plan : OperationPlan) (c : PlanCache)
      → IsCached (id, plan)
      → AreCached c
      → AreCached (insert id plan c)
  unfolding insert
  insert-AreCached id plan [] k a = (k, tt)
  insert-AreCached id plan ((j, other) ∷ rest) k a =
      ground (arith, insert-AreCached id plan rest k a.1)

  pub lookup-AreCached :
      (id : Text) (plan : OperationPlan) (c : PlanCache)
      → AreCached c
      → lookup id c ≡ some plan
      → IsCached (id, plan)
  unfolding lookup
  lookup-AreCached id plan [] a e = absurd (ground arith)
  lookup-AreCached id plan ((j, other) ∷ rest) a e = elim (Bool-cases (j == id)) [
    | inl b ↦
        subst IsCached
          (ap₂ (λ (i : Text) (p : OperationPlan). (i, p)) ((eq_iff j id).0 b) (ground arith)) a.0
    | inr b ↦ lookup-AreCached id plan rest a.1 (ground arith)
  ]
