-- ===== src/Control/Recordable.antt =====
-- The events that the audit log takes, and the records that it then has.
use quantum_control.Clock.{Time}
use quantum_control.Security.Plan.{Entropy}
use quantum_control.Prelude.{
  ◌+◌, ◌%◌, ◌^◌, err, ◌≢◌, inl, inr, subst, arith, Result, Option-cases, Result-cases, ◌≡◌, refl,
  ap, ◌⊎◌, Bool, true, ◌||◌, not, Option, none, some, [], ok,
}
use quantum_control.Text.{Text, text, ◌==◌}
use quantum_control.Protocol.{OperationResponse}
use quantum_control.Security.Types.{OperationPlan, AuditEvent, AuditRecord}
use quantum_control.Security.Digest.{Sha256}
use quantum_control.Security.Redact.{sanitize_label, sanitize_digest, redact_parameters}
use quantum_control.Security.Audit.{
  AuditStore, AuditCodec, AuditError, field_missing, append, draft_record, prepare_record,
  audit_hash, write_line,
}
use quantum_control.Security.Audit.Append.{extend, append_inv, prepared_shape}
use quantum_control.Control.Server.{ApprovalApi, State, Stamp, Context, append_audit}
use quantum_control.Control.Approvals.{unknown_event, outcome_event}

-- An event that Append takes: its name, its actor and its status are given.
unfoldable pub is_recordable : AuditEvent → Bool
is_recordable event = not (
    sanitize_label event.event 96 == []
    || event.actor.id == []
    || sanitize_label event.status 64 == [])

-- The broker answers an approved execution with one of its three statuses.
abbrev pub Answers : (W : Type 0) → ApprovalApi W → Type 0
Answers W broker =
    (plan : OperationPlan) (token credential : Text) (w w' : W) (response : OperationResponse)
    → broker.execute_approved plan token credential w ≡ (some response, w')
    → (response.status ≡ text "completed")
      ⊎ ((response.status ≡ text "rejected") ⊎ (response.status ≡ text "failed"))

-- The event of what the broker answered; `none` is a failed transport.
abbrev pub event_of : Context → OperationPlan → Option OperationResponse → AuditEvent
event_of context plan none = unknown_event context plan
event_of context plan (some response) = outcome_event context plan response

-- The record of an event behind a store.
pub record IsRecordOf (event : AuditEvent) (store : AuditStore) (r : AuditRecord) : Type 0 where
  pub event_name : r.event ≡ sanitize_label event.event 96
  pub actor : r.actor ≡ event.actor
  pub sequence : r.sequence ≡ (store.sequence + 1) % 2 ^ 64
  pub request : r.request_id ≡ sanitize_label event.request_id 160
  pub session : r.session_id ≡ sanitize_label event.session_id 160
  pub digest : r.plan_digest ≡ sanitize_digest event.plan_digest
  pub risk : r.risk ≡ sanitize_label event.risk 64
  pub parameters : r.parameters ≡ redact_parameters event.parameters
  pub plan : r.plan_id ≡ sanitize_label event.plan_id 160
  pub action : r.action ≡ sanitize_label event.action 160
  pub status : r.status ≡ sanitize_label event.status 64
  pub error : r.error_code ≡ sanitize_label event.error_code 96
  pub previous : r.previous_hash ≡ store.last_hash

-- What an append of an event with all its fields has done: it has extended the store by the record
-- of the event, or has failed, but not for a missing field, and left the store alone.
abbrev pub IsLogged : AuditEvent → AuditStore → Result AuditError AuditRecord → AuditStore → Type 0
IsLogged event store (ok r) after = IsRecordOf event store r × (after ≡ extend store r)
IsLogged event store (err e) after = (e ≢ field_missing) × (after ≡ store)

module _ (h : Sha256) (codec : AuditCodec) where
  recorded :
      (stamp : Stamp) (event : AuditEvent) (store after : AuditStore) (file left : Option Text)
      (r : AuditRecord)
      → append h codec stamp.calls stamp.now stamp.entropy event store file ≡ (ok r, after, left)
      → IsRecordOf event store r × (after ≡ extend store r)
  unfolding draft_record
  recorded stamp event store after file left r e =
      let (line, prepared, same, _) =
        append_inv h codec stamp.calls stamp.now stamp.entropy event store after file left r e in
      let (d, _, shape, _, _, _) =
        prepared_shape h codec stamp.now stamp.entropy event store r line prepared in
      (
        record {
          event_name = ap (λ k. k.event) shape;
          actor = ap (λ k. k.actor) shape;
          sequence = ap (λ k. k.sequence) shape;
          request = ap (λ k. k.request_id) shape;
          session = ap (λ k. k.session_id) shape;
          digest = ap (λ k. k.plan_digest) shape;
          risk = ap (λ k. k.risk) shape;
          parameters = ap (λ k. k.parameters) shape;
          plan = ap (λ k. k.plan_id) shape;
          action = ap (λ k. k.action) shape;
          status = ap (λ k. k.status) shape;
          error = ap (λ k. k.error_code) shape;
          previous = ap (λ k. k.previous_hash) shape;
        },
        same,
      )

  prepared_fails :
      (now : Time) (entropy : Entropy) (event : AuditEvent) (store : AuditStore) (e : AuditError)
      → is_recordable event ≡ true
      → prepare_record h codec now entropy event store ≡ err e
      → e ≢ field_missing
  unfolding prepare_record is_recordable draft_record
  prepared_fails now entropy event store e good p =
      elim (Option-cases (audit_hash h codec (draft_record now entropy event store))) [
        | inl a ↦ λ q. ground arith
        | inr (d, a) ↦
            elim (Option-cases
              (codec.encode (record (draft_record now entropy event store) { entry_hash = d }))) [
                | inl b ↦ λ q. ground arith
                | inr (line, b) ↦ λ q. ground arith
              ]
      ]

  failed :
      (stamp : Stamp) (event : AuditEvent) (store after : AuditStore) (file left : Option Text)
      (e : AuditError)
      → is_recordable event ≡ true
      → append h codec stamp.calls stamp.now stamp.entropy event store file ≡ (err e, after, left)
      → (e ≢ field_missing) × (after ≡ store)
  unfolding append write_line
  failed stamp event store after file left e good run =
      elim (Result-cases (prepare_record h codec stamp.now stamp.entropy event store)) [
        | inr (x, p) ↦
            let other = prepared_fails stamp.now stamp.entropy event store x good p in
            let same : x ≡ e = ground arith in
            (subst (λ k. k ≢ field_missing) same other, ground arith)
        | inl ((r, line), p) ↦ (λ q. ground arith, ground arith)
      ]

  pub append-IsLogged :
      (stamp : Stamp) (event : AuditEvent) (store after : AuditStore) (file left : Option Text)
      (answer : Result AuditError AuditRecord)
      → is_recordable event ≡ true
      → append h codec stamp.calls stamp.now stamp.entropy event store file ≡ (answer, after, left)
      → IsLogged event store answer after
  append-IsLogged stamp event store after file left (ok r) good run =
      recorded stamp event store after file left r run
  append-IsLogged stamp event store after file left (err e) good run =
      failed stamp event store after file left e good run

  -- The append of an event, with its stamp.
  abbrev pub log :
      Stamp
      → AuditEvent
      → AuditStore
      → Option Text
      → Result AuditError AuditRecord × AuditStore × Option Text
  log stamp event store file = append h codec stamp.calls stamp.now stamp.entropy event store file

  pub append_audit-log :
      {W : Type 0} (stamp : Stamp) (event : AuditEvent) (state : State W) (store : AuditStore)
      → state.audit ≡ some store
      → append_audit h codec stamp event state ≡ record state {
        audit = some (log stamp event store state.file).1;
        file = (log stamp event store state.file).2;
      }
  unfolding append_audit
  append_audit-log stamp event state store present = rw (append_audit, present) refl
