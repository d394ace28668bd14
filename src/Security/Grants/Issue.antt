-- ===== src/Security/Grants/Issue.antt =====
-- GrantStore.Issue: what a grant stands for, and what a refusal leaves behind.
use quantum_control.Prelude.{
  ℕ, ◌≤◌, ◌<◌, ◌≡◌, refl, sym, ap, subst, ◌∙◌, ◌≢◌, ◌⊎◌, inl, inr, true, false, Option, none, some,
  List, [], ◌∷◌, ◌++◌, arith, ok, err, Result-cases,
}
use quantum_control.Text.{Text, text, ◌==◌, eq_iff}
use quantum_control.Text.Trim.{trim_space}
use quantum_control.Text.Hex
use quantum_control.Clock.{Time, Duration, add, is_zero, is_zero_zero}
use quantum_control.Security.Types.{
  Actor, OperationPlan, ConfirmationGrant, GrantResponse, plan_schema, grant_schema, actor_human,
  confirm,
}
use quantum_control.Security.Actor.{has_permission}
use quantum_control.Security.Digest.{Sha256, hex_digest}
use quantum_control.Security.Plan.{Entropy, PlanEncoder, new_id, verify_plan_digest}
use quantum_control.Security.Grants.Save.{with_grants, save_cases}
use quantum_control.Security.Grants.{
  StoredGrant, GrantStore, GrantError, Disk, Calls, StoreEncoder, already_exists, draft_grant,
  issue,
}

-- What Issue demands of the plan and of the approver.
pub record IsReviewed (h : Sha256) (marshal : PlanEncoder) (now : Time) (plan : OperationPlan)
    (approver : Actor) : Type 0 where
  pub schema : plan.schema ≡ plan_schema
  pub valid : plan.valid ≡ true
  pub confirmable : plan.requires_confirmation ≡ true
  pub digest : verify_plan_digest h marshal plan ≡ true
  pub unexpired : now < plan.expires_at
  pub session : (trim_space plan.session_id == []) ≡ false
  pub human : approver.kind ≡ actor_human
  pub may_confirm : has_permission approver confirm ≡ true
  pub distinct : plan.actor.id ≢ approver.id

-- A new grant names its plan, is unused, and ends no later than the plan or the store's TTL.
pub record IsBound (now : Time) (ttl : Duration) (plan : OperationPlan) (approver : Actor)
    (grant : ConfirmationGrant) : Type 0 where
  pub schema : grant.schema ≡ grant_schema
  pub plan_id : grant.plan_id ≡ plan.id
  pub plan_digest : grant.plan_digest ≡ plan.digest
  pub subject : grant.subject_actor_id ≡ plan.actor.id
  pub session : grant.session_id ≡ plan.session_id
  pub action : grant.action ≡ plan.action
  pub issuer : grant.approver ≡ approver
  pub unused : is_zero grant.used_at ≡ true
  pub within_plan : grant.expires_at ≤ plan.expires_at
  pub within_ttl : grant.expires_at ≤ add now ttl

module _ (h : Sha256) (marshal : PlanEncoder) where
  grant_eq :
      (stored : StoredGrant) (response : GrantResponse)
      → stored.grant ≡ response.grant
      → stored.token_sha256 ≡ hex_digest h response.token
      → stored ≡ record { grant = response.grant; token_sha256 = hex_digest h response.token }
  grant_eq stored response p q = λ i. record { grant = p i; token_sha256 = q i }

  pub draft_grant-IsReviewed :
      (now : Time) (raw : Option (List ℕ)) (entropy : Entropy) (plan : OperationPlan)
      (approver : Actor) (store : GrantStore) (stored : StoredGrant) (response : GrantResponse)
      → draft_grant h marshal now raw entropy plan approver store ≡ ok (stored, response)
      → IsReviewed h marshal now plan approver
  unfolding draft_grant
  draft_grant-IsReviewed now none entropy plan approver store stored response e =
      absurd (ground arith)
  draft_grant-IsReviewed now (some raw) entropy plan approver store stored response e = record {
    schema = (eq_iff _ _).0 (ground arith);
    valid = ground arith;
    confirmable = ground arith;
    digest = ground arith;
    unexpired = ground arith;
    session = ground arith;
    human = (eq_iff _ _).0 (ground arith);
    may_confirm = ground arith;
    distinct = λ same. ground (arith, eq_iff plan.actor.id approver.id);
  }

  pub draft_grant_inv :
      (now : Time) (raw : Option (List ℕ)) (entropy : Entropy) (plan : OperationPlan)
      (approver : Actor) (store : GrantStore) (stored : StoredGrant) (response : GrantResponse)
      → draft_grant h marshal now raw entropy plan approver store ≡ ok (stored, response)
      → (bytes : List ℕ) × (raw ≡ some bytes)
        × (response.token ≡ Hex.encode bytes)
        × (stored.grant ≡ response.grant)
        × (stored.token_sha256 ≡ hex_digest h (Hex.encode bytes))
        × (already_exists plan store.state.grants ≡ false)
        × (response.grant.id ≡ new_id (text "grant") entropy)
        × IsBound now store.ttl plan approver response.grant
  unfolding draft_grant
  draft_grant_inv now none entropy plan approver store stored response e = absurd (ground arith)
  draft_grant_inv now (some raw) entropy plan approver store stored response e = (
    raw,
    refl,
    ground arith,
    ground arith,
    ground arith,
    ground arith,
    ground arith,
    record {
      schema = ground arith;
      plan_id = ground arith;
      plan_digest = ground arith;
      subject = ground arith;
      session = ground arith;
      action = ground arith;
      issuer = ground arith;
      unused = ground (arith, is_zero_zero);
      within_plan = ground arith;
      within_ttl = ground arith;
    },
  )

  module _ (encode : StoreEncoder) (calls : Calls) where
    -- Issue either adds one grant, in memory and in the file, or changes nothing.
    pub issue_cases :
        (now : Time) (raw : Option (List ℕ)) (entropy : Entropy) (plan : OperationPlan)
        (approver : Actor) (store : GrantStore) (disk : Disk)
        → ((stored : StoredGrant) × (response : GrantResponse) × (json : Text) × (draft_grant h
                marshal now raw entropy plan approver store
              ≡ ok (stored, response))
            × (encode (with_grants store (store.state.grants ++ stored ∷ [])).state ≡ some json)
            × (issue h marshal encode calls now raw entropy plan approver store disk ≡ (
              ok response,
              with_grants store (store.state.grants ++ stored ∷ []),
              some (json ++ 10 ∷ []),
            )))
          ⊎ ((e : GrantError) × (issue h marshal encode calls now raw entropy plan approver store
                  disk
                ≡ (err e, store, disk)))
    unfolding issue
    issue_cases now raw entropy plan approver store disk =
        elim (Result-cases (draft_grant h marshal now raw entropy plan approver store)) [
          | inr (e, p) ↦ inr (e, rw (p, issue))
          | inl ((stored, response), p) ↦
              elim (save_cases encode calls (store.state.grants ++ stored ∷ []) response store
                disk) [
                  | inl (json, q, r) ↦ inl (stored, response, json, p, q, rw (p, issue) r)
                  | inr (e, r) ↦ inr (e, rw (p, issue) r)
                ]
        ]

    -- A grant is issued only for a reviewed plan and by a distinct human with the permission to
    -- confirm, while no grant of the store is for that plan. The answer holds the grant that is
    -- added to the store, bound to the plan, and the token whose digest is stored with it.
    pub issue_sound :
        (now : Time) (raw : Option (List ℕ)) (entropy : Entropy) (plan : OperationPlan)
        (approver : Actor) (store store' : GrantStore) (disk disk' : Disk)
        (response : GrantResponse)
        → issue h marshal encode calls now raw entropy plan approver store disk
          ≡ (ok response, store', disk')
        → IsReviewed h marshal now plan approver
          × IsBound now store.ttl plan approver response.grant
          × (already_exists plan store.state.grants ≡ false)
          × (store'
              ≡ with_grants store (
                  store.state.grants
                  ++ record { grant = response.grant; token_sha256 = hex_digest h response.token }
                    ∷ []))
    issue_sound now raw entropy plan approver store store' disk disk' response e =
        elim (issue_cases now raw entropy plan approver store disk) [
          | inr (x, p) ↦ absurd (ground arith)
          | inl (stored, answer, json, p, q, r) ↦
              let same : answer ≡ response = ground arith in
              let (bytes, _, t, g, d, fresh, _, bound) =
                draft_grant_inv now raw entropy plan approver store stored answer p in
              (
                draft_grant-IsReviewed now raw entropy plan approver store stored answer p,
                subst (λ a. IsBound now store.ttl plan approver a.grant) same bound,
                fresh,
                ap (λ x. x.1) (sym e ∙ r)
                    ∙ ap (λ s. with_grants store (store.state.grants ++ s ∷ []))
                        (grant_eq stored response (g ∙ ap (λ a. a.grant) same)
                          (d ∙ ap (hex_digest h) (sym t ∙ ap (λ a. a.token) same))),
              )
        ]
