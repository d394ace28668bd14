-- ===== src/Broker/Approved/Laws.antt =====
-- What stands before the execution of an approved plan.
use quantum_control.Prelude.{
  ℕ, ◌≡◌, ap, ◌≢◌, ◌⊎◌, inl, inr, true, false, Option, some, List, arith, Bool-cases, Option-cases,
  ok, Result-cases, All,
}
use quantum_control.Text.{Text}
use quantum_control.Clock.{Time, is_zero}
use quantum_control.Protocol.{OperationResponse, Problem}
use quantum_control.Security.Types.{Actor, OperationPlan, ConfirmationGrant}
use quantum_control.Security.Digest.{Sha256}
use quantum_control.Security.Plan.{PlanEncoder}
use quantum_control.Security.Auth.{Authenticator}
use quantum_control.Security.Grants.{GrantStore, Disk, Calls, StoreEncoder, consume}
use quantum_control.Security.Grants.Consume.{consume_cases}
use quantum_control.Security.Grants.History.{Call, IsDated, run, consume_once}
use quantum_control.Broker.Host.{Host}
use quantum_control.Broker.Registry.{Registry, Compile}
use quantum_control.Broker.Approved.{
  Moment, may_mutate, authenticate_actor, validate_approved_plan, execute_approved,
  handle_execute_approved, forbidden, not_confirmed, reject_approved, Handled,
}

module _ {W : Type 0} (host : Host W) (h : Sha256) (marshal : PlanEncoder) (compile : Compile)
    (quote : Text → Text) where
  -- The request was refused, and nothing was changed.
  pub record IsRefused (m : Moment) (plan : OperationPlan) (store store' : GrantStore)
      (disk disk' : Disk) (w w' : W) (response : Option OperationResponse) : Type 0 where
    pub same_store : store' ≡ store
    pub same_disk : disk' ≡ disk
    pub same_host : w' ≡ w
    pub problem : (p : Problem) × (response ≡ some (reject_approved m plan p))

  refused :
      (p : Problem) (m : Moment) (plan : OperationPlan) (store store' : GrantStore)
      (disk disk' : Disk) (w w' : W) (response : Option OperationResponse)
      → ◌≡◌ {A = Option (Handled host h marshal compile quote)}
          (some (some (reject_approved m plan p), store, disk, w))
          (some (response, store', disk', w'))
      → IsRefused m plan store store' disk disk' w w' response
  refused p m plan store store' disk disk' w w' response e = record {
    same_store = ground arith;
    same_disk = ground arith;
    same_host = ground arith;
    problem = (p, ground arith);
  }

  -- The request was executed, by an executor with the permission and with a grant.
  pub record IsExecuted (fuel : ℕ) (encode : StoreEncoder) (m : Moment) (calls : Calls)
      (consumed : Time) (n : Moment) (r : Registry) (actors : Option Authenticator)
      (plan : OperationPlan) (confirmation_token actor_token : Text) (store store' : GrantStore)
      (disk disk' : Disk) (w w' : W) (response : Option OperationResponse) : Type 0 where
    pub executor : Actor
    pub grant : ConfirmationGrant
    pub authentic : authenticate_actor actors actor_token ≡ some executor
    pub permitted : may_mutate executor ≡ true
    pub valid : validate_approved_plan h marshal compile quote m.now r plan ≡ ok tt
    pub confirmed :
        consume h marshal encode calls consumed confirmation_token plan plan.actor.id plan.action
          store disk
        ≡ (ok grant, store', disk')
    pub ran :
        execute_approved host h marshal compile quote fuel n r plan executor w ≡ some (response, w')

  module _ (fuel : ℕ) (encode : StoreEncoder) (r : Registry) (actors : Option Authenticator) where
    -- The handler of approved executions either refuses the request and changes nothing, or has
    -- authenticated an executor that may mutate and is no tci, has validated the plan against the
    -- registry, and has consumed a grant for the plan, its subject and its action; only then does
    -- it execute the plan.
    pub handle_execute_approved_guarded :
        (m : Moment) (calls : Calls) (consumed : Time) (n : Moment) (plan : OperationPlan)
        (confirmation_token actor_token : Text) (store store' : GrantStore) (disk disk' : Disk)
        (w w' : W) (response : Option OperationResponse)
        → handle_execute_approved host h marshal compile quote fuel encode m calls consumed n r
            actors plan confirmation_token actor_token store disk w
          ≡ some (response, store', disk', w')
        → IsRefused m plan store store' disk disk' w w' response
          ⊎ IsExecuted fuel encode m calls consumed n r actors plan confirmation_token actor_token
              store store' disk disk' w w' response
    unfolding handle_execute_approved
    handle_execute_approved_guarded m calls consumed n plan confirmation_token actor_token store
          store' disk disk' w w' response e =
        elim (Option-cases (authenticate_actor actors actor_token)) [
          | inl a ↦
              inl (refused forbidden m plan store store' disk disk' w w' response (ground arith))
          | inr (executor, a) ↦ elim (Bool-cases (may_mutate executor)) [
            | inr b ↦
                inl (refused forbidden m plan store store' disk disk' w w' response (ground arith))
            | inl b ↦
                elim (Result-cases (validate_approved_plan h marshal compile quote m.now r plan)) [
                  | inr (p, c) ↦
                      inl (refused p m plan store store' disk disk' w w' response (ground arith))
                  | inl (u, c) ↦
                      elim (consume_cases h marshal encode calls consumed confirmation_token plan
                        plan.actor.id plan.action store disk) [
                          | inr (x, d) ↦ inl (
                              refused not_confirmed m plan store store' disk disk' w w' response
                                (ground arith))
                          | inl (marked, grant, json, _, _, d) ↦
                              elim (Option-cases (
                                execute_approved host h marshal compile quote fuel n r plan executor
                                  w)) [
                                    | inl x ↦ absurd (ground arith)
                                    | inr ((answer, v), x) ↦ inr (record {
                                      executor = executor;
                                      grant = grant;
                                      authentic = a;
                                      permitted = b;
                                      valid = c;
                                      confirmed = ground arith;
                                      ran = ground arith;
                                    })
                                  ]
                        ]
                ]
          ]
        ]

    -- A confirmation token executes one plan once. After a request with the token was executed, every
    -- later request with it is refused and changes nothing, whatever plan it names, whoever sends
    -- it, whatever issues and consumptions came between, and whether the execution succeeded.
    pub token_executes_once :
        (m : Moment) (calls : Calls) (consumed : Time) (n : Moment) (plan : OperationPlan)
        (confirmation_token actor_token : Text) (store store' : GrantStore) (disk disk' : Disk)
        (w w' : W) (response : Option OperationResponse) (history : List Call) (m' : Moment)
        (calls' : Calls) (consumed' : Time) (n' : Moment) (plan' : OperationPlan)
        (actor_token' : Text) (last : GrantStore) (file : Disk) (v v' : W)
        (answer : Option OperationResponse)
        → is_zero consumed ≡ false
        → handle_execute_approved host h marshal compile quote fuel encode m calls consumed n r
            actors plan confirmation_token actor_token store disk w
          ≡ some (response, store', disk', w')
        → ((p : Problem) → response ≢ some (reject_approved m plan p))
        → All IsDated history
        → let later = run h marshal encode (record { store = store'; disk = disk' }) history in
          handle_execute_approved host h marshal compile quote fuel encode m' calls' consumed' n' r
              actors plan' confirmation_token actor_token' later.store later.disk v
            ≡ some (answer, last, file, v')
          → IsRefused m' plan' later.store last later.disk file v v' answer
    token_executes_once m calls consumed n plan confirmation_token actor_token store store' disk
          disk' w w' response history m' calls' consumed' n' plan' actor_token' last file v v'
          answer z e executed dated e' =
        let later = run h marshal encode (record { store = store'; disk = disk' }) history in
        elim (handle_execute_approved_guarded m calls consumed n plan confirmation_token actor_token
          store store' disk disk' w w' response e) [
            | inl x ↦ absurd (executed x.problem.0 x.problem.1)
            | inr x ↦
                elim (handle_execute_approved_guarded m' calls' consumed' n' plan'
                  confirmation_token actor_token' later.store last later.disk file v v' answer e') [
                    | inl y ↦ y
                    | inr y ↦ absurd (
                        consume_once h marshal encode (record { store = store; disk = disk }) calls
                          consumed confirmation_token plan plan.actor.id plan.action store' disk'
                          x.grant history calls' consumed' plan' plan'.actor.id plan'.action y.grant
                          z x.confirmed dated (ap (λ k. k.0) y.confirmed))
                  ]
          ]
