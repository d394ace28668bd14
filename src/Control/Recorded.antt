-- ===== src/Control/Recorded.antt =====
-- The audit records of an approved execution.
use quantum_control.Prelude.{Result, ◌≡◌, Option, some}
use quantum_control.Text.{Text}
use quantum_control.Protocol.{OperationResponse}
use quantum_control.Security.Types.{OperationPlan, AuditRecord}
use quantum_control.Security.Cache.{get}
use quantum_control.Security.Digest.{Sha256}
use quantum_control.Security.Audit.{AuditStore, AuditCodec, AuditError}
use quantum_control.Control.Server.{Server, ApprovalApi, State, Draws, Context}
use quantum_control.Control.Approvals.{attempt_event}
use quantum_control.Control.Recordable.{event_of, IsLogged, log}

-- What a request that reaches the broker leaves: the broker was asked once, for the plan that the
-- cache holds, behind an append of the attempt and before one of its answer. The store and the file
-- are those that the two appends leave.
pub record IsExecution {W : Type 0} (h : Sha256) (codec : AuditCodec) (broker : ApprovalApi W)
    (d : Draws) (context : Context) (store : AuditStore) (state state' : State W) : Type 0 where
  pub plan_id : Text
  pub plan : OperationPlan
  pub token : Text
  pub answer : Option OperationResponse
  pub attempt : Result AuditError AuditRecord
  pub outcome : Result AuditError AuditRecord
  pub between : AuditStore
  pub file : Option Text
  pub after : AuditStore
  pub cached : (get d.cached plan_id state.plans).0 ≡ some plan
  pub attempted :
      log h codec d.first (attempt_event context plan) store state.file ≡ (attempt, between, file)
  pub attempt_logged : IsLogged (attempt_event context plan) store attempt between
  pub asked :
      broker.execute_approved plan token context.credential state.world ≡ (answer, state'.world)
  pub ended :
      log h codec d.second (event_of context plan answer) between file
      ≡ (outcome, after, state'.file)
  pub outcome_logged : IsLogged (event_of context plan answer) between outcome after
  pub audit : state'.audit ≡ some after
