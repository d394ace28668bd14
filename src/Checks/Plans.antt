-- ===== src/Checks/Plans.antt =====
-- internal/security/plan.go at concrete inputs.
use quantum_control.Prelude.{
  ℕ, ◌+◌, ◌-◌, ◌<◌, ◌≡◌, refl, ◌≢◌, true, ◌&&◌, some, [], ◌∷◌, map, arith, leb, if◌then◌else◌,
  Result, ok, err,
}
use quantum_control.Text.{Text, text, ◌==◌, eq_iff}
use quantum_control.Text.Trim.{trim_space}
use mathlib.Core.List.{Nodup, Nodup-cons, Nodup-nil, mem-singleton, not-mem-nil}
use mathlib.Core.List.Perm
use mathlib.Core.Bool.{false≢true}
use quantum_control.Text.Hex
use quantum_control.Text.Case.{equal_fold}
use quantum_control.Text.Order.{text_lt}
use quantum_control.Text.Sort.{sort_by}
use quantum_control.Clock.{minute}
use quantum_control.Prelude.Int.{pos, negsuc}
use quantum_control.Security.Types.{OperationPlan, plan_schema}
use quantum_control.Security.Plan.{
  PlanError, plan_digest, verify_plan_digest, draft_plan, build, new_id, sort_parameters,
  to_parameters, problem_code,
}
use quantum_control.Security.Plan.Laws.{build_verifies, verified_sums}
use quantum_control.Security.Plan.Order.{build_any_order}
use quantum_control.Security.Cache.{PlanCache, put, get}
use quantum_control.Security.Cache.Laws.{unless_expired, get-put}
use quantum_control.Checks.Data.{sha, service_actor, start, entropy, marshal, broker_plan}

abbrev pub plan_or : OperationPlan → Result PlanError OperationPlan → OperationPlan
plan_or other (ok p) = p
plan_or other (err e) = other

abbrev pub built : OperationPlan
built =
    plan_or (draft_plan (negsuc 0) start entropy service_actor (text "s1") broker_plan)
      (build sha marshal (negsuc 0) start entropy service_actor (text "s1") broker_plan)

built_eq :
    build sha marshal (negsuc 0) start entropy service_actor (text "s1") broker_plan ≡ ok built
unfolding build plan_digest draft_plan trim_space text ◌==◌
built_eq = refl

build_verifies_example :
    (verify_plan_digest sha marshal built ≡ true)
    × (built.schema ≡ plan_schema)
    × (built.created_at ≡ start)
    × (start < built.expires_at)
    × (built.actor ≡ service_actor)
    × (built.valid ≡ true)
    × (built.requires_confirmation ≡ true)
    × (built.action ≡ trim_space (text " service.restart "))
    × (built.id ≡ new_id (text "plan") entropy)
    × (built.request_id ≡ broker_plan.request.request_id)
    × (built.session_id ≡ trim_space (text "s1"))
    × (built.parameters ≡ sort_parameters (to_parameters broker_plan.request.parameters))
    × (built.risk ≡ broker_plan.definition.risk)
    × (built.error_code ≡ problem_code broker_plan.error)
build_verifies_example =
    build_verifies sha marshal (negsuc 0) start entropy service_actor (text "s1") broker_plan built
      built_eq

distinct_names : Nodup (map (λ (e : Text × Text). e.0) broker_plan.request.parameters)
unfolding text ◌==◌
distinct_names =
    Nodup-cons.1 (λ m. apart ((mem-singleton hlevel).0 m), Nodup-cons.1 (not-mem-nil, Nodup-nil))
  where
    apart : text "unit" ≢ text "mode"
    apart e = false≢true ((eq_iff (text "unit") (text "mode")).1 e)

build_any_order_example :
    build sha marshal (pos minute) start entropy service_actor (text "s1") broker_plan
    ≡ build sha marshal (pos minute) start entropy service_actor (text "s1") (record broker_plan {
      request = record broker_plan.request {
        parameters = (text "mode", text "fast") ∷ (text "unit", text "a.service") ∷ [];
      };
    })
unfolding text
build_any_order_example =
    build_any_order sha marshal (pos minute) start entropy service_actor (text "s1") broker_plan
      ((text "mode", text "fast") ∷ (text "unit", text "a.service") ∷ []) (Perm.swap _ _ _)
      distinct_names

-- The same plan with its digest in capital letters.
abbrev capital : ℕ → ℕ
capital b = if leb 97 b && leb b 102 then b - 32 else b

abbrev shouted : OperationPlan
shouted = record built { digest = map (λ b. capital b) built.digest }

shouted_verifies : verify_plan_digest sha marshal shouted ≡ true
unfolding verify_plan_digest build plan_digest draft_plan trim_space text ◌==◌ equal_fold Hex.encode
    sort_by text_lt new_id
shouted_verifies = refl

same_digests : equal_fold built.digest shouted.digest ≡ true
unfolding build plan_digest draft_plan trim_space text ◌==◌ equal_fold Hex.encode sort_by text_lt
    new_id
same_digests = refl

verified_sums_example : plan_digest sha marshal built ≡ plan_digest sha marshal shouted
verified_sums_example =
    verified_sums sha marshal built shouted build_verifies_example.0 shouted_verifies same_digests

abbrev empty : PlanCache
empty = []

get-put_example : (get (start + minute) built.id (put start built empty)).0 ≡ (
    if built.id == built.id
    then unless_expired (start + minute) (some built)
    else (get (start + minute) built.id empty).0)
get-put_example = get-put start (start + minute) built built.id empty tt (omega arith)
