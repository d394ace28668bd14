-- ===== src/Control/Kept.antt =====
-- The handlers that leave the plan cache alone.
use quantum_control.Prelude.{
  ◌≡◌, refl, ◌∙◌, inl, inr, Bool, true, false, Option, none, some, List, Option-cases,
}
use quantum_control.Text.{Text}
use quantum_control.Protocol.{OperationRequest, OperationResponse, OperationDefinition}
use quantum_control.Security.Types.{OperationPlan, GrantResponse}
use quantum_control.Security.Digest.{Sha256}
use quantum_control.Security.Types.{AuditEvent}
use quantum_control.Security.Audit.{AuditCodec}
use quantum_control.Inventory.{Component, Snapshot}
use quantum_control.Control.Server.{ApprovalApi, State, Stamp, Draws, Context, append_audit}
use quantum_control.Control.Operations.{readiness, catalog_reply, read_state, executed}
use quantum_control.Control.Approvals.{
  attempt_event, approved_outcome, execute_plan, confirmed, confirm_plan,
}
use quantum_control.Control.Reading.{snapshot_reply, component_reply}

module _ {W : Type 0} (h : Sha256) (codec : AuditCodec) where
  pub append_audit-plans :
      (stamp : Stamp) (event : AuditEvent) (state : State W)
      → (append_audit h codec stamp event state).plans ≡ state.plans
  unfolding append_audit
  append_audit-plans stamp event state = elim (Option-cases state.audit) [
    | inl e ↦ rw (append_audit, e) refl
    | inr (store, e) ↦ rw (append_audit, e) refl
  ]

  pub executed-plans :
      (d : Draws) (context : Context) (request : OperationRequest) (state : State W)
      (result : Option OperationResponse × W)
      → (executed h codec d context request state result).1.plans ≡ state.plans
  executed-plans d context request state (none, w) = refl
  executed-plans d context request state (some response, w) = append_audit-plans d.first _ _

  pub approved_outcome-plans :
      (d : Draws) (context : Context) (plan : OperationPlan) (state : State W)
      (result : Option OperationResponse × W)
      → (approved_outcome h codec d context plan state result).1.plans ≡ state.plans
  approved_outcome-plans d context plan state (none, w) = append_audit-plans d.second _ _
  approved_outcome-plans d context plan state (some response, w) = append_audit-plans d.second _ _

  pub execute_plan-plans :
      (broker : ApprovalApi W) (d : Draws) (context : Context) (token : Text) (state : State W)
      (found : Option OperationPlan)
      → (execute_plan h codec broker d context token state found).1.plans ≡ state.plans
  execute_plan-plans broker d context token state none = refl
  execute_plan-plans broker d context token state (some plan) =
      let attempted = append_audit h codec d.first (attempt_event context plan) state in
      approved_outcome-plans d context plan attempted _
      ∙ append_audit-plans d.first (attempt_event context plan) state

  pub confirmed-plans :
      (d : Draws) (context : Context) (plan : OperationPlan) (state : State W)
      (result : Option GrantResponse × W)
      → (confirmed h codec d context plan state result).1.plans ≡ state.plans
  confirmed-plans d context plan state (none, w) = refl
  confirmed-plans d context plan state (some grant, w) = append_audit-plans d.first _ _

  pub confirm_plan-plans :
      (broker : ApprovalApi W) (d : Draws) (context : Context) (state : State W)
      (found : Option OperationPlan)
      → (confirm_plan h codec broker d context state found).1.plans ≡ state.plans
  confirm_plan-plans broker d context state none = refl
  confirm_plan-plans broker d context state (some plan) = confirmed-plans d context plan state _

module _ {W : Type 0} where
  pub readiness-plans :
      (id : Text) (state : State W) (result : Bool × W)
      → (readiness id state result).1.plans ≡ state.plans
  readiness-plans id state (true, w) = refl
  readiness-plans id state (false, w) = refl

  pub catalog_reply-plans :
      (id : Text) (state : State W) (result : Option (List OperationDefinition) × W)
      → (catalog_reply id state result).1.plans ≡ state.plans
  catalog_reply-plans id state (none, w) = refl
  catalog_reply-plans id state (some operations, w) = refl

  pub read_state-plans :
      (context : Context) (state : State W) (result : Option OperationResponse × W)
      → (read_state context state result).1.plans ≡ state.plans
  read_state-plans context state (none, w) = refl
  read_state-plans context state (some response, w) = refl

  pub snapshot_reply-plans :
      (id : Text) (state : State W) (result : Option Snapshot × W)
      → (snapshot_reply id state result).1.plans ≡ state.plans
  snapshot_reply-plans id state (none, w) = refl
  snapshot_reply-plans id state (some s, w) = refl

  pub component_reply-plans :
      (id : Text) (state : State W) (result : Option (Option Component) × W)
      → (component_reply id state result).1.plans ≡ state.plans
  component_reply-plans id state (none, w) = refl
  component_reply-plans id state (some none, w) = refl
  component_reply-plans id state (some (some c), w) = refl
