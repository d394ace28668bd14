-- ===== src/Checks/Restart.antt =====
-- A restart of the grant store at concrete inputs.
use quantum_control.Prelude.{
  zero, suc, ◌≡◌, refl, sym, ap, subst, false, Option, none, some, List, [], ◌∷◌, ◌++◌, arith, ok,
  some_inj,
}
use quantum_control.Text.{Text, text, ◌==◌}
use quantum_control.Text.Trim.{trim_space}
use native.Mathlib.Decide.{ℕ_discrete}
use quantum_control.Text.Hex
use quantum_control.Text.Case.{equal_fold}
use quantum_control.Text.Order.{text_lt}
use quantum_control.Text.Sort.{contains, sort_by}
use quantum_control.Clock.{zero_time}
use quantum_control.Security.Actor.{has_permission}
use quantum_control.Security.Plan.{verify_plan_digest, plan_digest, draft_plan, build, new_id}
use quantum_control.Security.Grants.{
  GrantState, StoreEncoder, content, empty_state, issue, draft_grant, save, prepare_file,
  already_exists, check_grants, open_grant_store,
}
use quantum_control.Security.Grants.History.{Stored, Call, issues, run, step}
use quantum_control.Security.Grants.Restart.{IsDurable, AreFresh, open-run}
use quantum_control.Checks.Data.{sha, approver, start, entropy, marshal}
use quantum_control.Checks.Plans.{built}
use quantum_control.Checks.Grants.{store, confirmed, calls}

GrantState-discrete : Discrete GrantState
GrantState-discrete = hlevel ℕ_discrete

-- A codec for the two states of the run.
encode : StoreEncoder
unfolding GrantState-discrete ℕ_discrete
encode s = elim (GrantState-discrete s empty_state) [
  | yes p ↦ some (0 ∷ [])
  | no n ↦ elim (GrantState-discrete s confirmed.state) [ yes q ↦ some (1 ∷ []) | no m ↦ none ]
]

decode : Text → Option GrantState
decode [] = none
decode (zero ∷ r) = some empty_state
decode (suc n ∷ r) = some confirmed.state

decode-encode :
    (s : GrantState) (json : Text) → encode s ≡ some json → decode (json ++ 10 ∷ []) ≡ some s
unfolding encode decode
decode-encode s json e =
    elim (GrantState-discrete s empty_state)
        as (λ d.
          elim d [
            | yes p ↦ some (0 ∷ [])
            | no n ↦ elim (GrantState-discrete s confirmed.state) [
              | yes q ↦ some (1 ∷ [])
              | no m ↦ none
            ]
          ]
            ≡ some json
          → decode (json ++ 10 ∷ []) ≡ some s) [
            | yes p ↦
                λ k. subst (λ j. decode (j ++ 10 ∷ []) ≡ some s) (some_inj k) (ap some (sym p))
            | no n ↦
                elim (GrantState-discrete s confirmed.state)
                  as (λ d.
                    elim d [ yes q ↦ some (1 ∷ []) | no m ↦ none ] ≡ some json
                    → decode (json ++ 10 ∷ []) ≡ some s) [
                      | yes q ↦ λ k.
                          subst (λ j. decode (j ++ 10 ∷ []) ≡ some s) (some_inj k) (ap some (sym q))
                      | no m ↦ λ k. absurd (ground arith)
                    ]
          ]
      e

abbrev initial : Stored
initial = record { store = store; disk = some (0 ∷ 10 ∷ []) }

initial-IsDurable : IsDurable sha marshal encode initial
unfolding encode check_grants text
initial-IsDurable = record { schema = refl; checked = refl; written = (0 ∷ [], refl, refl) }

abbrev history : List Call
history = issues calls start (some (7 ∷ 9 ∷ [])) entropy built approver ∷ []

history_fresh : AreFresh sha marshal encode initial history
unfolding build plan_digest draft_plan trim_space text ◌==◌ contains new_id
history_fresh = ((refl, refl, refl, refl), tt)

history_disk : (run sha marshal encode initial history).disk ≡ some (1 ∷ 10 ∷ [])
unfolding run step issue draft_grant verify_plan_digest build plan_digest draft_plan trim_space text
    ◌==◌ equal_fold Hex.encode sort_by text_lt new_id has_permission contains already_exists save
    prepare_file encode zero_time
history_disk = refl

named : (trim_space initial.store.path == []) ≡ false
unfolding trim_space text ◌==◌
named = refl

open-run_example :
    open_grant_store decode store.path store.ttl (content (1 ∷ 10 ∷ []))
    ≡ ok (run sha marshal encode initial history).store
open-run_example =
    open-run sha marshal encode decode initial history (1 ∷ 10 ∷ [])
      (decode-encode (run sha marshal encode initial history).store.state) initial-IsDurable named
      refl history_fresh history_disk (omega arith)
