-- ===== src/Security/Grants/Binding.antt =====
-- From the confirmation of a plan to the consumption of its grant.
use quantum_control.Prelude.{
  ℕ, ◌<◌, ◌≡◌, refl, sym, ap, subst, ◌∙◌, true, Option, none, some, List, [], ◌∷◌, ◌++◌, arith, ok,
  some_inj, All,
}
use quantum_control.Text.{Text, eq_refl}
use quantum_control.Text.Case.{equal_fold}
use quantum_control.Clock.{Time}
use quantum_control.Security.Types.{Actor, OperationPlan, ConfirmationGrant, GrantResponse}
use quantum_control.Security.Digest.{Sha256, hex_digest, decode-hex_digest}
use quantum_control.Security.Plan.{Entropy, PlanEncoder, plan_digest, canonical_plan}
use quantum_control.Security.Plan.Laws.{verified_sums}
use quantum_control.Security.Grants.Issue.{IsReviewed, issue_sound}
use quantum_control.Security.Grants.Consume.{first_match, first_match-append_none, consume_sound}
use quantum_control.Security.Grants.History.{
  Stored, Call, IsDated, Later, same, marked, run, run-Later,
}
use quantum_control.Security.Grants.{
  StoredGrant, GrantStore, Disk, Calls, StoreEncoder, issue, consume,
}

-- What a use does not change.
record SameBinding (a b : ConfirmationGrant) : Type 0 where
  plan_id : a.plan_id ≡ b.plan_id
  plan_digest : a.plan_digest ≡ b.plan_digest
  subject : a.subject_actor_id ≡ b.subject_actor_id
  session : a.session_id ≡ b.session_id
  action : a.action ≡ b.action
  expires : a.expires_at ≡ b.expires_at

Later-SameBinding : {a b : ConfirmationGrant} → Later a b → SameBinding a b
Later-SameBinding same = record {
  plan_id = refl;
  plan_digest = refl;
  subject = refl;
  session = refl;
  action = refl;
  expires = refl;
}
Later-SameBinding (marked now u z) = record {
  plan_id = refl;
  plan_digest = refl;
  subject = refl;
  session = refl;
  action = refl;
  expires = refl;
}

module _ (h : Sha256) (marshal : PlanEncoder) (encode : StoreEncoder) where
  selects_new :
      (gs : List StoredGrant) (g : ConfirmationGrant) (token : Text)
      → first_match (h.sum token) gs ≡ none
      → first_match
          (h.sum token)
          (gs ++ record { grant = g; token_sha256 = hex_digest h token } ∷ [])
        ≡ some g
  unfolding first_match
  selects_new gs g token e =
      first_match-append_none (h.sum token) gs
        (record { grant = g; token_sha256 = hex_digest h token } ∷ []) e
      ∙ rw (decode-hex_digest h token, eq_refl (h.sum token), first_match) refl

  -- A token that was issued for a plan executes that plan alone. Let the token be new to the store,
  -- let any calls follow, and let a consumption with the token succeed for a plan whose digest does
  -- not collide with that of the confirmed one. Then both plans have the same canonical form, the
  -- subject and the action are the confirmed plan's, neither the plan nor the TTL has run out, and
  -- the plan was confirmed by a human with the permission, who is not its subject.
  pub consumed_was_confirmed :
      (s : Stored) (calls : Calls) (now : Time) (raw : Option (List ℕ)) (entropy : Entropy)
      (plan : OperationPlan) (approver : Actor) (store' : GrantStore) (disk' : Disk)
      (response : GrantResponse) (history : List Call) (calls' : Calls) (now' : Time)
      (plan' : OperationPlan) (subject action : Text) (grant : ConfirmationGrant)
      → first_match (h.sum response.token) s.store.state.grants ≡ none
      → issue h marshal encode calls now raw entropy plan approver s.store s.disk
        ≡ (ok response, store', disk')
      → All IsDated history
      → let later = run h marshal encode (record { store = store'; disk = disk' }) history in
        (consume h marshal encode calls' now' response.token plan' subject action later.store
            later.disk).0
          ≡ ok grant
        → (plan_digest h marshal plan ≡ plan_digest h marshal plan'
            → canonical_plan plan ≡ canonical_plan plan')
        → (canonical_plan plan ≡ canonical_plan plan')
          × (subject ≡ plan.actor.id)
          × (action ≡ plan.action)
          × (now' < plan.expires_at)
          × (now' < response.grant.expires_at)
          × IsReviewed h marshal now plan approver
  consumed_was_confirmed s calls now raw entropy plan approver store' disk' response history calls'
        now' plan' subject action grant new issued dated consumed no_collision =
      let (reviewed, bound, _, shape) =
        issue_sound h marshal encode calls now raw entropy plan approver s.store store' s.disk disk'
          response issued in
      let start : Stored = record { store = store'; disk = disk' } in
      let selected : first_match (h.sum response.token) store'.state.grants ≡ some response.grant =
        ap (λ t. first_match (h.sum response.token) t.state.grants) shape
        ∙ selects_new s.store.state.grants response.grant response.token new in
      let (g, f, l) =
        run-Later h marshal encode start history (h.sum response.token) response.grant dated
          selected in
      let later = run h marshal encode start history in
      let result =
        consume h marshal encode calls' now' response.token plan' subject action later.store
          later.disk in
      let (old, k, permits, executable, _, _) =
        consume_sound h marshal encode calls' now' response.token plan' subject action later.store
          result.1 later.disk result.2 grant (λ i. (consumed i, result.1, result.2)) in
      let b = Later-SameBinding l in
      let e : g ≡ old = some_inj (sym f ∙ k) in
      let same_digest : equal_fold plan.digest plan'.digest ≡ true =
        subst (λ d. equal_fold d plan'.digest ≡ true)
          (sym (sym bound.plan_digest ∙ b.plan_digest ∙ ap (λ x. x.plan_digest) e))
          permits.plan_digest in
      let in_time : now' < response.grant.expires_at =
        subst (λ t. now' < t) (sym (b.expires ∙ ap (λ x. x.expires_at) e)) permits.unexpired in
      (
        no_collision
            (verified_sums h marshal plan plan' reviewed.digest executable.digest same_digest),
        sym permits.subject_id ∙ sym (b.subject ∙ ap (λ x. x.subject_actor_id) e) ∙ bound.subject,
        sym permits.same_action ∙ sym (b.action ∙ ap (λ x. x.action) e) ∙ bound.action,
        omega (arith, bound.within_plan, in_time),
        in_time,
        reviewed,
      )
