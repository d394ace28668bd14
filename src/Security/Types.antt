-- ===== src/Security/Types.antt =====
-- internal/security/types.go.
use quantum_control.Prelude.{ℕ, Bool, List}
use quantum_control.Text.{Text, text}
use quantum_control.Clock.{Time}
use quantum_control.Protocol.{StringMap}

abbrev pub actor_schema : Text
actor_schema = text "quantum.control/actors/v1alpha1"

abbrev pub plan_schema : Text
plan_schema = text "quantum.control/operation-plan/v1alpha1"

abbrev pub grant_schema : Text
grant_schema = text "quantum.control/confirmation-grant/v1alpha1"

abbrev pub audit_schema : Text
audit_schema = text "quantum.control/audit-record/v1alpha1"

abbrev pub ActorKind : Type 0
ActorKind = Text

abbrev pub actor_human : ActorKind
actor_human = text "human"

abbrev pub actor_service : ActorKind
actor_service = text "service"

abbrev pub actor_tci : ActorKind
actor_tci = text "tci"

abbrev pub Permission : Type 0
Permission = Text

abbrev pub control_read : Permission
control_read = text "control.read"

abbrev pub inventory_read : Permission
inventory_read = text "inventory.read"

abbrev pub operation_catalog : Permission
operation_catalog = text "operations.catalog.read"

abbrev pub operation_plan : Permission
operation_plan = text "operations.plan"

abbrev pub operation_execute : Permission
operation_execute = text "operations.execute.readonly"

abbrev pub operation_mutate : Permission
operation_mutate = text "operations.execute.mutate"

abbrev pub audit_read : Permission
audit_read = text "audit.read"

abbrev pub confirm : Permission
confirm = text "operations.confirm"

abbrev pub tci_propose : Permission
tci_propose = text "operations.propose"

pub record Actor : Type 0 where
  pub id : Text
  pub kind : ActorKind
  pub display_name : Text
  pub roles : List Text
  pub permissions : List Permission

pub record ActorCredential : Type 0 where
  pub actor : Actor
  pub token_sha256 : Text

pub record ActorRegistry : Type 0 where
  pub schema : Text
  pub actors : List ActorCredential

pub record Parameter : Type 0 where
  pub name : Text
  pub value : Text

pub record OperationPlan : Type 0 where
  pub schema : Text
  pub id : Text
  pub digest : Text
  pub request_id : Text
  pub session_id : Text
  pub actor : Actor
  pub action : Text
  pub parameters : List Parameter
  pub risk : Text
  pub requires_confirmation : Bool
  pub valid : Bool
  pub created_at : Time
  pub expires_at : Time
  pub error_code : Text

pub record ConfirmationGrant : Type 0 where
  pub schema : Text
  pub id : Text
  pub plan_id : Text
  pub plan_digest : Text
  pub subject_actor_id : Text
  pub session_id : Text
  pub approver : Actor
  pub action : Text
  pub issued_at : Time
  pub expires_at : Time
  pub used_at : Time

pub record GrantResponse : Type 0 where
  pub grant : ConfirmationGrant
  pub token : Text

pub record AuditRecord : Type 0 where
  pub schema : Text
  pub sequence : ℕ
  pub id : Text
  pub timestamp : Time
  pub event : Text
  pub actor : Actor
  pub request_id : Text
  pub session_id : Text
  pub plan_id : Text
  pub plan_digest : Text
  pub action : Text
  pub risk : Text
  pub status : Text
  pub rollback_status : Text
  pub parameters : StringMap
  pub error_code : Text
  pub previous_hash : Text
  pub entry_hash : Text

pub record AuditEvent : Type 0 where
  pub event : Text
  pub actor : Actor
  pub request_id : Text
  pub session_id : Text
  pub plan_id : Text
  pub plan_digest : Text
  pub action : Text
  pub risk : Text
  pub status : Text
  pub rollback_status : Text
  pub parameters : StringMap
  pub error_code : Text
