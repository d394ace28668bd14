-- ===== src/Security/Plan/Laws.antt =====
-- The digest of a built plan, and what a digest binds.
use quantum_control.Prelude.{
  zero, suc, ◌<◌, ◌≡◌, refl, sym, ap, subst, ◌∙◌, inl, inr, true, some, arith, Option-cases, ok,
  length,
}
use quantum_control.Text.{Text, text}
use quantum_control.Text.Trim.{trim_space}
use quantum_control.Text.Case.{
  equal_fold, equal_fold_refl, equal_fold_comm, equal_fold_low, equal_fold_trans, IsLow,
}
use quantum_control.Prelude.Int.{pos, negsuc}
use quantum_control.Clock.{Time, Duration}
use quantum_control.Protocol
use quantum_control.Security.Types.{Actor, OperationPlan, plan_schema}
use quantum_control.Security.Digest.{Sha256, hex_digest, hex_digest-IsLow, length-hex_digest}
use quantum_control.Security.Plan.{
  Entropy, PlanEncoder, canonical_plan, plan_digest, verify_plan_digest, draft_plan, build, new_id,
  sort_parameters, to_parameters, problem_code,
}

-- The lifetime of a built plan is positive, also for a builder without a TTL.
draft_expires :
    (ttl : Duration) (now : Time) (entropy : Entropy) (actor : Actor) (session : Text)
    (plan : Protocol.OperationPlan)
    → now < (draft_plan ttl now entropy actor session plan).expires_at
unfolding draft_plan
draft_expires (pos zero) now entropy actor session plan = omega arith
draft_expires (pos (suc n)) now entropy actor session plan = ground arith
draft_expires (negsuc n) now entropy actor session plan = omega arith

module _ (h : Sha256) (marshal : PlanEncoder) where
  digest_inv :
      (plan : OperationPlan) (d : Text)
      → plan_digest h marshal plan ≡ some d
      → (bytes : Text) × (marshal (canonical_plan plan) ≡ some bytes) × (d ≡ hex_digest h bytes)
  unfolding plan_digest
  digest_inv plan d e = elim (Option-cases (marshal (canonical_plan plan))) [
    | inl p ↦ absurd (ground arith)
    | inr (bytes, p) ↦ (bytes, p, ground arith)
  ]

  -- A verified plan carries a digest of its own canonical form, up to the case of its letters.
  verify_inv :
      (plan : OperationPlan)
      → verify_plan_digest h marshal plan ≡ true
      → (d : Text) × (plan_digest h marshal plan ≡ some d) × (equal_fold d plan.digest ≡ true)
  unfolding verify_plan_digest
  verify_inv plan e = elim (Option-cases (plan_digest h marshal plan)) [
    | inl p ↦ absurd (ground arith)
    | inr (d, p) ↦ (d, p, ground arith)
  ]

  pub length-verified :
      (plan : OperationPlan) → verify_plan_digest h marshal plan ≡ true → length plan.digest ≡ 64
  unfolding verify_plan_digest
  length-verified plan e =
      let (d, p, f) = verify_inv plan e in
      let (b, m, s) = digest_inv plan d p in
      let size : length d ≡ 64 = ap length s ∙ length-hex_digest h b in ground (arith, size)

  build_inv :
      (ttl : Duration) (now : Time) (entropy : Entropy) (actor : Actor) (session : Text)
      (broker_plan : Protocol.OperationPlan) (plan : OperationPlan)
      → build h marshal ttl now entropy actor session broker_plan ≡ ok plan
      → let draft = draft_plan ttl now entropy actor session broker_plan in
        (d : Text) × (plan_digest h marshal draft ≡ some d) × (plan ≡ record draft { digest = d })
  unfolding build
  build_inv ttl now entropy actor session broker_plan plan e =
      elim (Option-cases
        (plan_digest h marshal (draft_plan ttl now entropy actor session broker_plan))) [
          | inl p ↦ absurd (ground arith)
          | inr (d, p) ↦ (d, p, ground arith)
        ]

  digested_verifies :
      (plan : OperationPlan) (d : Text)
      → plan_digest h marshal plan ≡ some d
      → verify_plan_digest h marshal (record plan { digest = d }) ≡ true
  unfolding verify_plan_digest plan_digest
  digested_verifies plan d e = rw e (ground (arith, equal_fold_refl d))

  -- Whatever the TTL of the builder, a plan that it returns carries a digest that verifies, is
  -- dated at the clock and expires after it. It is for the given actor and the trimmed session, and
  -- has the new ID, and the broker's request ID, action, parameters in order of their names, risk,
  -- validity, need of a confirmation and error code.
  pub build_verifies :
      (ttl : Duration) (now : Time) (entropy : Entropy) (actor : Actor) (session : Text)
      (broker_plan : Protocol.OperationPlan) (plan : OperationPlan)
      → build h marshal ttl now entropy actor session broker_plan ≡ ok plan
      → (verify_plan_digest h marshal plan ≡ true)
        × (plan.schema ≡ plan_schema)
        × (plan.created_at ≡ now)
        × (now < plan.expires_at)
        × (plan.actor ≡ actor)
        × (plan.valid ≡ broker_plan.valid)
        × (plan.requires_confirmation ≡ broker_plan.requires_confirmation)
        × (plan.action ≡ trim_space broker_plan.request.action)
        × (plan.id ≡ new_id (text "plan") entropy)
        × (plan.request_id ≡ broker_plan.request.request_id)
        × (plan.session_id ≡ trim_space session)
        × (plan.parameters ≡ sort_parameters (to_parameters broker_plan.request.parameters))
        × (plan.risk ≡ broker_plan.definition.risk)
        × (plan.error_code ≡ problem_code broker_plan.error)
  build_verifies ttl now entropy actor session broker_plan plan e =
      let (d, p, shape) = build_inv ttl now entropy actor session broker_plan plan e in
      rw shape (
        digested_verifies (draft_plan ttl now entropy actor session broker_plan) d p,
        unfold draft_plan in refl,
        unfold draft_plan in refl,
        draft_expires ttl now entropy actor session broker_plan,
        unfold draft_plan in refl,
        unfold draft_plan in refl,
        unfold draft_plan in refl,
        unfold draft_plan in refl,
        unfold draft_plan in refl,
        unfold draft_plan in refl,
        unfold draft_plan in refl,
        unfold draft_plan in refl,
        unfold draft_plan in refl,
        unfold draft_plan in refl,
      )

  -- Two verified plans whose digests agree up to case have canonical encodings with the same
  -- SHA-256 sum.
  pub verified_sums :
      (p q : OperationPlan)
      → verify_plan_digest h marshal p ≡ true
      → verify_plan_digest h marshal q ≡ true
      → equal_fold p.digest q.digest ≡ true
      → plan_digest h marshal p ≡ plan_digest h marshal q
  verified_sums p q vp vq same =
      let (d, dp, fp) = verify_inv p vp in
      let (e, dq, fq) = verify_inv q vq in
      let (b, mb, sb) = digest_inv p d dp in
      let (c, mc, sc) = digest_inv q e dq in
      dp
      ∙ ap some (
          equal_fold_low d e (subst IsLow (sym sb) (hex_digest-IsLow h b))
            (subst IsLow (sym sc) (hex_digest-IsLow h c))
            (equal_fold_trans d q.digest e (equal_fold_trans d p.digest q.digest fp same)
              (equal_fold_comm q.digest e ∙ fq)))
      ∙ sym dq
