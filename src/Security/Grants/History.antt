-- ===== src/Security/Grants/History.antt =====
-- Histories of the store: any sequence of issues and consumptions, with any arguments and any
-- failures of the file system.
use quantum_control.Prelude.{
  ℕ, ◌≡◌, sym, ap, ◌∙◌, ◌≢◌, inl, inr, true, false, Option, some, List, [], ◌∷◌, arith, Result, ok,
  some_inj, All,
}
use quantum_control.Text.{Text}
use mathlib.Core.Bool.{false≢true}
use quantum_control.Clock.{Time, is_zero}
use quantum_control.Security.Types.{Actor, OperationPlan, ConfirmationGrant}
use quantum_control.Security.Digest.{Sha256}
use quantum_control.Security.Plan.{Entropy, PlanEncoder}
use quantum_control.Security.Grants.Issue.{issue_cases}
use quantum_control.Security.Grants.Consume.{
  first_match, first_match-append, used, consume_cases, consume_sound, mark_used-other,
  select_grant_inv,
}
use quantum_control.Security.Grants.{
  GrantStore, GrantError, Disk, Calls, StoreEncoder, issue, consume,
}

pub record Stored : Type 0 where
  pub store : GrantStore
  pub disk : Disk

pub data Call : Type 0 where
  issues : Calls → Time → Option (List ℕ) → Entropy → OperationPlan → Actor → Call
  consumes : Calls → Time → Text → OperationPlan → Text → Text → Call

-- The clock of a call is not at the zero instant.
abbrev pub IsDated : Call → Type 0
IsDated (issues calls now raw entropy plan approver) = is_zero now ≡ false
IsDated (consumes calls now token plan subject action) = is_zero now ≡ false

abbrev after_call {ℓ} : {A : Type ℓ} → Result GrantError A × GrantStore × Disk → Stored
after_call r = record { store = r.1; disk = r.2 }

-- A later form of a grant: the same, or marked as used where it was unused.
pub data Later (old : ConfirmationGrant) : ConfirmationGrant → Type 0 where
  same : Later old old
  marked :
      (now : Time) → is_zero old.used_at ≡ true → is_zero now ≡ false → Later old (used now old)

Later-trans : {a b c : ConfirmationGrant} → Later a b → Later b c → Later a c
Later-trans l same = l
Later-trans same (marked now u z) = marked now u z
Later-trans (marked now u z) (marked then' v w) = absurd (ground arith)

module _ (h : Sha256) (marshal : PlanEncoder) (encode : StoreEncoder) where
  unfoldable pub step : Stored → Call → Stored
  step s (issues calls now raw entropy plan approver) =
      after_call (issue h marshal encode calls now raw entropy plan approver s.store s.disk)
  step s (consumes calls now token plan subject action) =
      after_call (consume h marshal encode calls now token plan subject action s.store s.disk)

  unfoldable pub run : Stored → List Call → Stored
  run s [] = s
  run s (c ∷ cs) = run (step s c) cs

  -- The grant that a digest selects stays selected, and is at most marked as used.
  step-Later :
      (s : Stored) (c : Call) (d : List ℕ) (g : ConfirmationGrant)
      → IsDated c
      → first_match d s.store.state.grants ≡ some g
      → (g' : ConfirmationGrant) × (first_match d (step s c).store.state.grants ≡ some g')
        × Later g g'
  unfolding step
  step-Later s (issues calls now raw entropy plan approver) d g z f =
      elim (issue_cases h marshal encode calls now raw entropy plan approver s.store s.disk) [
        | inl (stored, response, json, p, q, r) ↦
            (g, rw r (first_match-append d s.store.state.grants (stored ∷ []) g f), same)
        | inr (e, r) ↦ (g, rw r f, same)
      ]
  step-Later s (consumes calls now token plan subject action) d g z f =
      elim (consume_cases h marshal encode calls now token plan subject action s.store s.disk) [
        | inl (list, answer, json, p, q, r) ↦
            let (m, _) =
              select_grant_inv h marshal now token plan subject action s.store list answer p in
            elim (mark_used-other now d (h.sum token) plan subject action s.store.state.grants list
              answer g m f) [
                | inl k ↦ (g, rw r k, same)
                | inr (k, u) ↦ (used now g, rw r k, marked now u z)
              ]
        | inr (e, r) ↦ (g, rw r f, same)
      ]

  pub run-Later :
      (s : Stored) (cs : List Call) (d : List ℕ) (g : ConfirmationGrant)
      → All IsDated cs
      → first_match d s.store.state.grants ≡ some g
      → (g' : ConfirmationGrant) × (first_match d (run s cs).store.state.grants ≡ some g')
        × Later g g'
  unfolding run
  run-Later s [] d g z f = (g, f, same)
  run-Later s (c ∷ cs) d g z f =
      let (g', f', l) = step-Later s c d g z.0 f in
      let (g'', f'', m) = run-Later (step s c) cs d g' z.1 f' in (g'', f'', Later-trans l m)

  used_stays :
      {a b : ConfirmationGrant} → Later a b → is_zero a.used_at ≡ false → is_zero b.used_at ≡ false
  used_stays same u = u
  used_stays (marked now v z) u = z

  -- A token is good for one consumption: after it has been consumed, no later call with it succeeds,
  -- whatever calls of either kind came between, for whatever plan, and whichever saves failed.
  pub consume_once :
      (s : Stored) (calls : Calls) (now : Time) (token : Text) (plan : OperationPlan)
      (subject action : Text) (store' : GrantStore) (disk' : Disk) (grant : ConfirmationGrant)
      (history : List Call) (calls' : Calls) (now' : Time) (plan' : OperationPlan)
      (subject' action' : Text) (again : ConfirmationGrant)
      → is_zero now ≡ false
      → consume h marshal encode calls now token plan subject action s.store s.disk
        ≡ (ok grant, store', disk')
      → All IsDated history
      → let later = run (record { store = store'; disk = disk' }) history in
        (consume h marshal encode calls' now' token plan' subject' action' later.store later.disk).0
        ≢ ok again
  consume_once s calls now token plan subject action store' disk' grant history calls' now' plan'
        subject' action' again z e dated twice =
      let (old, _, _, _, g, f) =
        consume_sound h marshal encode calls now token plan subject action s.store store' s.disk
          disk' grant e in
      let start : Stored = record { store = store'; disk = disk' } in
      let (g', f', l) = run-Later start history (h.sum token) grant dated f in
      let later = run start history in
      let result =
        consume h marshal encode calls' now' token plan' subject' action' later.store later.disk in
      let (old', k, permits, _, _, _) =
        consume_sound h marshal encode calls' now' token plan' subject' action' later.store result.1
          later.disk result.2 again (λ i. (twice i, result.1, result.2)) in
      false≢true (
        sym (used_stays l (ap (λ x. is_zero x.used_at) g ∙ z))
        ∙ ap (λ x. is_zero x.used_at) (some_inj (sym f' ∙ k))
        ∙ permits.unused)
