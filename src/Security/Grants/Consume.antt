-- ===== src/Security/Grants/Consume.antt =====
-- GrantStore.Consume: which grant a token selects, and what is demanded of it.
use quantum_control.Prelude.{
  ℕ, ◌<◌, ◌≡◌, refl, ◌⊎◌, inl, inr, true, Option, none, some, List, [], ◌∷◌, ◌++◌, arith,
  if◌then◌else◌, Bool-cases, ok, err, Result-cases,
}
use quantum_control.Text.{Text, eq_iff}
use quantum_control.Text.Case.{equal_fold}
use quantum_control.Clock.{Time, is_zero}
use quantum_control.Security.Types.{OperationPlan, ConfirmationGrant, plan_schema}
use quantum_control.Security.Digest.{Sha256, decode_sha256}
use quantum_control.Security.Plan.{PlanEncoder, verify_plan_digest}
use quantum_control.Security.Grants.Save.{with_grants, save_cases}
use quantum_control.Security.Grants.{
  StoredGrant, GrantStore, GrantError, Disk, Calls, StoreEncoder, token_matches, check_grant,
  mark_used, select_grant, consume,
}

-- The first grant that is stored for a token with the given digest.
unfoldable pub first_match : List ℕ → List StoredGrant → Option ConfirmationGrant
first_match d [] = none
first_match d (stored ∷ rest) =
    let later = first_match d rest in
    if token_matches d (decode_sha256 stored.token_sha256) then some stored.grant else later

-- What Consume demands of the grant that the token selects.
pub record Permits (now : Time) (plan : OperationPlan) (subject action : Text)
    (grant : ConfirmationGrant) : Type 0 where
  pub unused : is_zero grant.used_at ≡ true
  pub unexpired : now < grant.expires_at
  pub plan_id : grant.plan_id ≡ plan.id
  pub plan_digest : equal_fold grant.plan_digest plan.digest ≡ true
  pub subject_id : grant.subject_actor_id ≡ subject
  pub session : grant.session_id ≡ plan.session_id
  pub same_action : grant.action ≡ action

-- What it demands of the plan before that.
pub record IsExecutable (h : Sha256) (marshal : PlanEncoder) (now : Time) (plan : OperationPlan)
    : Type 0 where
  pub schema : plan.schema ≡ plan_schema
  pub valid : plan.valid ≡ true
  pub confirmable : plan.requires_confirmation ≡ true
  pub digest : verify_plan_digest h marshal plan ≡ true
  pub unexpired : now < plan.expires_at

pub first_match-append :
    (d : List ℕ) (gs hs : List StoredGrant) (g : ConfirmationGrant)
    → first_match d gs ≡ some g
    → first_match d (gs ++ hs) ≡ some g
unfolding first_match
first_match-append d [] hs g e = absurd (ground arith)
first_match-append d (stored ∷ rest) hs g e = ground (arith, first_match-append d rest hs g)

pub first_match-append_none :
    (d : List ℕ) (gs hs : List StoredGrant)
    → first_match d gs ≡ none
    → first_match d (gs ++ hs) ≡ first_match d hs
unfolding first_match
first_match-append_none d [] hs e = refl
first_match-append_none d (stored ∷ rest) hs e = ground (arith, first_match-append_none d rest hs)

-- The grant with the time of its use.
abbrev pub used : Time → ConfirmationGrant → ConfirmationGrant
used now g = record g { used_at = now }

check_grant-Permits :
    (now : Time) (plan : OperationPlan) (subject action : Text) (g : ConfirmationGrant)
    (u : Unit {0})
    → check_grant now plan subject action g ≡ ok u
    → Permits now plan subject action g
unfolding check_grant
check_grant-Permits now plan subject action g u e = record {
  unused = ground arith;
  unexpired = ground arith;
  plan_id = (eq_iff _ _).0 (ground arith);
  plan_digest = ground arith;
  subject_id = (eq_iff _ _).0 (ground arith);
  session = (eq_iff _ _).0 (ground arith);
  same_action = (eq_iff _ _).0 (ground arith);
}

-- The loop answers with the first match, marked as used in the list, and only if the match permits it.
pub mark_used-first :
    (now : Time) (d : List ℕ) (plan : OperationPlan) (subject action : Text)
    (gs marked : List StoredGrant) (g : ConfirmationGrant)
    → mark_used now d plan subject action gs ≡ ok (marked, g)
    → (old : ConfirmationGrant) × (first_match d gs ≡ some old)
      × Permits now plan subject action old
      × (g ≡ used now old)
      × (first_match d marked ≡ some g)
unfolding mark_used first_match
mark_used-first now d plan subject action [] marked g e = absurd (ground arith)
mark_used-first now d plan subject action (stored ∷ rest) marked g e =
    elim (Bool-cases (token_matches d (decode_sha256 stored.token_sha256))) [
      | inl m ↦ elim (Result-cases (check_grant now plan subject action stored.grant)) [
        | inl (u, c) ↦ (
          stored.grant,
          rw m refl,
          check_grant-Permits now plan subject action stored.grant u c,
          ground arith,
          ground arith,
        )
        | inr (x, c) ↦ absurd (ground arith)
      ]
      | inr m ↦ elim (Result-cases (mark_used now d plan subject action rest)) [
        | inl ((later, k), r) ↦
            let (old, f, p, s, q) = mark_used-first now d plan subject action rest later k r in
            (old, rw m f, p, ground arith, ground arith)
        | inr (x, r) ↦ absurd (ground arith)
      ]
    ]

-- For every digest the first match stays, or is marked as used where it was unused.
pub mark_used-other :
    (now : Time) (d b : List ℕ) (plan : OperationPlan) (subject action : Text)
    (gs marked : List StoredGrant) (g old : ConfirmationGrant)
    → mark_used now b plan subject action gs ≡ ok (marked, g)
    → first_match d gs ≡ some old
    → (first_match d marked ≡ some old)
      ⊎ ((first_match d marked ≡ some (used now old)) × (is_zero old.used_at ≡ true))
unfolding mark_used first_match
mark_used-other now d b plan subject action [] marked g old e f = absurd (ground arith)
mark_used-other now d b plan subject action (stored ∷ rest) marked g old e f =
    elim (Bool-cases (token_matches b (decode_sha256 stored.token_sha256))) [
      | inl m ↦ elim (Result-cases (check_grant now plan subject action stored.grant)) [
        | inl (u, c) ↦
            let unused = (check_grant-Permits now plan subject action stored.grant u c).unused in
            elim (Bool-cases (token_matches d (decode_sha256 stored.token_sha256))) [
              | inl k ↦ inr (ground arith, ground arith)
              | inr k ↦ inl (ground arith)
            ]
        | inr (x, c) ↦ absurd (ground arith)
      ]
      | inr m ↦ elim (Result-cases (mark_used now b plan subject action rest)) [
        | inl ((later, k), r) ↦
            elim (Bool-cases (token_matches d (decode_sha256 stored.token_sha256))) [
              | inl own ↦ inl (ground arith)
              | inr other ↦
                  elim (mark_used-other now d b plan subject action rest later k old r
                    (ground arith)) [
                      | inl p ↦ inl (ground arith)
                      | inr (p, q) ↦ inr (ground arith, q)
                    ]
            ]
        | inr (x, r) ↦ absurd (ground arith)
      ]
    ]

module _ (h : Sha256) (marshal : PlanEncoder) where
  pub select_grant_inv :
      (now : Time) (token : Text) (plan : OperationPlan) (subject action : Text)
      (store : GrantStore) (marked : List StoredGrant) (g : ConfirmationGrant)
      → select_grant h marshal now token plan subject action store ≡ ok (marked, g)
      → (mark_used now (h.sum token) plan subject action store.state.grants ≡ ok (marked, g))
        × IsExecutable h marshal now plan
  unfolding select_grant
  select_grant_inv now token plan subject action store marked g e = (
    ground arith,
    record {
      schema = (eq_iff _ _).0 (ground arith);
      valid = ground arith;
      confirmable = ground arith;
      digest = ground arith;
      unexpired = ground arith;
    },
  )

  module _ (encode : StoreEncoder) (calls : Calls) where
    -- Consume either marks a grant as used, in memory and in the file, or changes nothing.
    pub consume_cases :
        (now : Time) (token : Text) (plan : OperationPlan) (subject action : Text)
        (store : GrantStore) (disk : Disk)
        → ((marked : List StoredGrant) × (g : ConfirmationGrant) × (json : Text) × (select_grant h
                marshal now token plan subject action store
              ≡ ok (marked, g))
            × (encode (with_grants store marked).state ≡ some json)
            × (consume h marshal encode calls now token plan subject action store disk
                ≡ (ok g, with_grants store marked, some (json ++ 10 ∷ []))))
          ⊎ ((e : GrantError) × (consume h marshal encode calls now token plan subject action store
                  disk
                ≡ (err e, store, disk)))
    unfolding consume
    consume_cases now token plan subject action store disk =
        elim (Result-cases (select_grant h marshal now token plan subject action store)) [
          | inr (e, p) ↦ inr (e, rw (p, consume))
          | inl ((marked, g), p) ↦ elim (save_cases encode calls marked g store disk) [
            | inl (json, q, r) ↦ inl (marked, g, json, p, q, rw (p, consume) r)
            | inr (e, r) ↦ inr (e, rw (p, consume) r)
          ]
        ]

    -- A consumed grant is the first one stored for the token. It was unused and unexpired, and bound
    -- to this plan, subject, session and action; the plan is executable; and the answer, which is now
    -- stored for the token, is that grant with the time of its use.
    pub consume_sound :
        (now : Time) (token : Text) (plan : OperationPlan) (subject action : Text)
        (store store' : GrantStore) (disk disk' : Disk) (grant : ConfirmationGrant)
        → consume h marshal encode calls now token plan subject action store disk
          ≡ (ok grant, store', disk')
        → (old : ConfirmationGrant) × (first_match (h.sum token) store.state.grants ≡ some old)
          × Permits now plan subject action old
          × IsExecutable h marshal now plan
          × (grant ≡ used now old)
          × (first_match (h.sum token) store'.state.grants ≡ some grant)
    consume_sound now token plan subject action store store' disk disk' grant e =
        elim (consume_cases now token plan subject action store disk) [
          | inr (x, p) ↦ absurd (ground arith)
          | inl (marked, g, json, p, q, r) ↦
              let (m, x) = select_grant_inv now token plan subject action store marked g p in
              let (old, f, permits, u, k) =
                mark_used-first now (h.sum token) plan subject action store.state.grants marked g
                  m in
              (old, f, permits, x, ground arith, ground arith)
        ]
