-- ===== src/Security/Cache/Laws.antt =====
-- The plan cache as a map whose entries end at their expiry.
use quantum_control.Prelude.{
  ◌≤◌, ◌≡◌, refl, sym, ap, ◌∙◌, Bool, true, false, Option, none, some, [], ◌∷◌, arith,
  if◌then◌else◌,
}
use quantum_control.Text.{Text, ◌==◌, eq_iff}
use quantum_control.Clock.{Time, after}
use quantum_control.Protocol.{lookup, insert, lookup-insert}
use quantum_control.Security.Types.{OperationPlan}
use quantum_control.Security.Cache.{PlanCache, purge_expired, put, get}

-- No ID is the key of two entries.
abbrev pub DistinctIds : PlanCache → Type 0
DistinctIds [] = Unit {0}
DistinctIds ((id, plan) ∷ rest) = (lookup id rest ≡ none) × DistinctIds rest

abbrev pub unless_expired : Time → Option OperationPlan → Option OperationPlan
unless_expired now none = none
unless_expired now (some plan) = if after plan.expires_at now then some plan else none

lookup-purge :
    (now : Time) (id : Text) (c : PlanCache)
    → DistinctIds c
    → lookup id (purge_expired now c) ≡ unless_expired now (lookup id c)
unfolding purge_expired lookup
lookup-purge now id [] d = refl
lookup-purge now id ((j, plan) ∷ rest) d = ground (arith, lookup-purge now id rest d.1, eq_iff j id)

lookup-purge_none :
    (now : Time) (id : Text) (c : PlanCache)
    → lookup id c ≡ none
    → lookup id (purge_expired now c) ≡ none
unfolding purge_expired lookup
lookup-purge_none now id [] e = refl
lookup-purge_none now id ((j, plan) ∷ rest) e = ground (arith, lookup-purge_none now id rest)

purge-DistinctIds : (now : Time) (c : PlanCache) → DistinctIds c → DistinctIds (purge_expired now c)
unfolding purge_expired
purge-DistinctIds now [] d = tt
purge-DistinctIds now ((j, plan) ∷ rest) d =
    ground (arith, lookup-purge_none now j rest, purge-DistinctIds now rest d.1)

insert-DistinctIds :
    (id : Text) (plan : OperationPlan) (c : PlanCache)
    → DistinctIds c
    → DistinctIds (insert id plan c)
unfolding insert lookup
insert-DistinctIds id plan [] d = (refl, tt)
insert-DistinctIds id plan ((j, other) ∷ rest) d = ground (
  arith,
  insert-DistinctIds id plan rest d.1,
  lookup-insert id j plan rest,
  eq_iff j id,
  eq_iff id j,
)

-- Both operations keep the IDs distinct.
pub put-DistinctIds :
    (now : Time) (plan : OperationPlan) (c : PlanCache)
    → DistinctIds c
    → DistinctIds (put now plan c)
unfolding put
put-DistinctIds now plan c d = insert-DistinctIds plan.id plan _ (purge-DistinctIds now c d)

pub get-DistinctIds :
    (now : Time) (id : Text) (c : PlanCache) → DistinctIds c → DistinctIds (get now id c).1
unfolding get
get-DistinctIds now id c d = purge-DistinctIds now c d

-- The purge of an earlier operation removes nothing that a later reader could have.
expired_later :
    (now later : Time) (o : Option OperationPlan)
    → now ≤ later
    → unless_expired later (unless_expired now o) ≡ unless_expired later o
expired_later now later none le = refl
expired_later now later (some plan) le = ground arith

-- A reader finds the plan that was stored last under its ID, until that plan expires; plans under
-- other IDs are found as they were before. So every read of a cache with distinct IDs is decided
-- by the last write and the clock.
pub get-put :
    (now later : Time) (plan : OperationPlan) (id : Text) (c : PlanCache)
    → DistinctIds c
    → now ≤ later
    → (get later id (put now plan c)).0
      ≡ (if plan.id == id then unless_expired later (some plan) else (get later id c).0)
unfolding get put
get-put now later plan id c d le =
    lookup-purge later id (put now plan c) (put-DistinctIds now plan c d)
    ∙ ap (unless_expired later) (lookup-insert plan.id id plan (purge_expired now c))
    ∙ split (plan.id == id)
  where
    split :
        (b : Bool)
        → unless_expired later (if b then some plan else lookup id (purge_expired now c))
          ≡ (if b then unless_expired later (some plan) else lookup id (purge_expired later c))
    split true = refl
    split false =
        ap (unless_expired later) (lookup-purge now id c d)
        ∙ expired_later now later (lookup id c) le
        ∙ sym (lookup-purge later id c d)
