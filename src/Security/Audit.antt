-- ===== src/Security/Audit.antt =====
-- internal/security/audit.go: the audit store. The mutex makes each operation one step. The clock,
-- the random bytes, the outcomes of the calls to the file system and the JSON codec are arguments.
pub mod Lines
pub mod Chain
pub mod Append
pub mod Query
pub mod Integrity
use quantum_control.Prelude.{
  ℕ, zero, suc, ◌+◌, ◌-◌, ◌*◌, ◌%◌, ◌^◌, ◌≤◌, ◌<◌, min, ◌≡◌, refl, sym, ap, ap₂, subst, ◌∙◌, ◌≢◌,
  ◌↔◌, ◌⊎◌, inl, inr, Bool, true, false, ◌&&◌, ◌||◌, not, Option, none, some, List, [], ◌∷◌, ◌++◌,
  map, reverse, arith, ltb, leb, eqb, eqb_iff, eqb_refl, if◌then◌else◌, Bool-cases, Option-cases,
  Bool-ext, Result, ok, err, ◌>>=◌, ◌>>◌, require, refuse, or_fail, Result-cases, ok-injective,
  some_inj, length, take, All, All-append, All-map, length-append, length-take,
}
use quantum_control.Text.{Text, text, ◌==◌, eq_iff, eq_refl, eq_comm}
use quantum_control.Text.Trim.{trim_space}
use quantum_control.Clock.{Time}
use quantum_control.Prelude.Int.{ℤ, not_positive, above, pos, negsuc}
use quantum_control.Text.Case.{equal_fold}
use quantum_control.Text.Sort.{sort}
use quantum_control.Security.Types.{
  Actor, ActorKind, Permission, Parameter, AuditRecord, AuditEvent, audit_schema,
}
use quantum_control.Security.Digest.{Sha256, hex_digest}
use quantum_control.Security.Plan.{Entropy, new_id, sort_parameters, to_parameters}
use quantum_control.Security.Redact.{redact_parameters, sanitize_label, sanitize_digest}
use Lines.{scan_lines, drop_cr}
use quantum_control.Security.Grants.{ReadFile, missing, unreadable, content}

abbrev pub max_audit_line : ℕ
max_audit_line = 1048576

pub record AuditStore : Type 0 where
  pub path : Text
  pub records : List AuditRecord
  pub last_hash : Text
  pub sequence : ℕ

-- The anonymous struct of auditHash.
pub record CanonicalAudit : Type 0 where
  pub schema : Text
  pub sequence : ℕ
  pub id : Text
  pub timestamp : Time
  pub event : Text
  pub actor_id : Text
  pub actor_kind : ActorKind
  pub roles : List Text
  pub permissions : List Permission
  pub request_id : Text
  pub session_id : Text
  pub plan_id : Text
  pub plan_digest : Text
  pub action : Text
  pub risk : Text
  pub status : Text
  pub rollback_status : Text
  pub parameters : List Parameter
  pub error_code : Text
  pub previous_hash : Text

abbrev pub canonical_audit : AuditRecord → CanonicalAudit
canonical_audit r = record {
  schema = r.schema;
  sequence = r.sequence;
  id = r.id;
  timestamp = r.timestamp;
  event = r.event;
  actor_id = r.actor.id;
  actor_kind = r.actor.kind;
  roles = sort r.actor.roles;
  permissions = sort r.actor.permissions;
  request_id = r.request_id;
  session_id = r.session_id;
  plan_id = r.plan_id;
  plan_digest = r.plan_digest;
  action = r.action;
  risk = r.risk;
  status = r.status;
  rollback_status = r.rollback_status;
  parameters = sort_parameters (to_parameters r.parameters);
  error_code = r.error_code;
  previous_hash = r.previous_hash;
}

pub data AuditError : Type 0 where
  path_required open_failed read_failed empty_record invalid_json : AuditError
  chain_mismatch hash_mismatch field_missing : AuditError
  not_canonical not_encoded line_too_long directory_failed : AuditError
  write_failed sync_failed close_failed : AuditError

-- json.Marshal of the canonical struct and of the record, and the strict decoder of a line.
pub record AuditCodec : Type 0 where
  pub canonical : CanonicalAudit → Option Text
  pub encode : AuditRecord → Option Text
  pub decode : Text → Option AuditRecord

-- The outcomes of Append's calls to the file system. A write that fails has written some bytes.
pub data Write : Type 0 where
  complete : Write
  broken : ℕ → Write

pub record Calls : Type 0 where
  pub make_directory : Bool
  pub open_file : Bool
  pub write : Write
  pub sync : Bool
  pub close : Bool

-- Query: the newest records that pass the filters, at most `limit`.
unfoldable pub select_newest : Text → Text → ℕ → List AuditRecord → List AuditRecord
select_newest actor action zero rs = []
select_newest actor action (suc n) [] = []
select_newest actor action (suc n) (r ∷ rs) =
    elim ((not (actor == []) && not (r.actor.id == actor))
      || (not (action == []) && not (r.action == action))) [
        | true ↦ select_newest actor action (suc n) rs
        | false ↦ r ∷ select_newest actor action n rs
      ]

unfoldable pub effective_limit : ℤ → ℕ
effective_limit (pos n) = if leb n 0 || ltb 500 n then 100 else n
effective_limit (negsuc n) = 100

-- AuditStore.Query
unfoldable pub query : ℤ → Text → Text → AuditStore → List AuditRecord
query limit actor action store = reverse (
    select_newest (trim_space actor) (trim_space action) (effective_limit limit)
      (reverse store.records))

-- The record of Append before its hash.
unfoldable pub draft_record : Time → Entropy → AuditEvent → AuditStore → AuditRecord
draft_record now entropy event store = record {
  schema = audit_schema;
  sequence = (store.sequence + 1) % 2 ^ 64;
  id = new_id (text "audit") entropy;
  timestamp = now;
  event = sanitize_label event.event 96;
  actor = event.actor;
  request_id = sanitize_label event.request_id 160;
  session_id = sanitize_label event.session_id 160;
  plan_id = sanitize_label event.plan_id 160;
  plan_digest = sanitize_digest event.plan_digest;
  action = sanitize_label event.action 160;
  risk = sanitize_label event.risk 64;
  status = sanitize_label event.status 64;
  rollback_status = sanitize_label event.rollback_status 64;
  parameters = redact_parameters event.parameters;
  error_code = sanitize_label event.error_code 96;
  previous_hash = store.last_hash;
  entry_hash = [];
}

abbrev pub bytes_of : Option Text → Text
bytes_of none = []
bytes_of (some bytes) = bytes

-- The calls of Append to the file system: the error, if any, and the file that is left.
unfoldable pub write_line : Calls → Text → Option Text → Result AuditError (Unit {0}) × Option Text
write_line calls line file =
    if not calls.make_directory
    then (err directory_failed, file)
    else if not calls.open_file
    then (err open_failed, file)
    else elim calls.write [
      | broken n ↦ (err write_failed, some (bytes_of file ++ take n (line ++ 10 ∷ [])))
      | complete ↦
          let written = some (bytes_of file ++ (line ++ 10 ∷ [])) in
          (require calls.sync sync_failed >> require calls.close close_failed, written)
    ]

-- The end of Append: the store moves on only after the last call.
abbrev pub record_written :
    AuditRecord
    → AuditStore
    → Result AuditError (Unit {0}) × Option Text
    → Result AuditError AuditRecord × AuditStore × Option Text
record_written r store (ok u, file) = (
  ok r,
  record store {
    records = store.records ++ r ∷ [];
    last_hash = r.entry_hash;
    sequence = r.sequence;
  },
  file,
)
record_written r store (err e, file) = (err e, store, file)

module _ (h : Sha256) (codec : AuditCodec) where
  abbrev digest_of : Option Text → Option Text
  digest_of none = none
  digest_of (some bytes) = some (hex_digest h bytes)

  -- auditHash
  unfoldable pub audit_hash : AuditRecord → Option Text
  audit_hash r = digest_of (codec.canonical (canonical_audit r))

  abbrev hash_agrees : Option Text → Text → Bool
  hash_agrees none hash = false
  hash_agrees (some expected) hash = equal_fold expected hash

  -- The tests of loadAndVerify on a decoded record.
  unfoldable pub check_record : ℕ → Text → AuditRecord → Result AuditError (Unit {0})
  check_record sequence previous r = do
    refuse
        (not (r.schema == audit_schema)
          || not (eqb r.sequence ((sequence + 1) % 2 ^ 64))
          || not (r.previous_hash == previous))
        chain_mismatch
    require (hash_agrees (audit_hash r) r.entry_hash) hash_mismatch
    refuse (r.actor.id == [] || r.event == [] || r.status == []) field_missing

  -- The loop of loadAndVerify over the lines, in the state that it has reached. A line that does
  -- not fit the scanner's buffer with its end ends the loop with the scanner's error.
  unfoldable pub verify_lines : List Text → AuditStore → Result AuditError AuditStore
  verify_lines [] store = ok store
  verify_lines (raw ∷ rest) store = do
    refuse (leb max_audit_line (length raw)) read_failed
    let line = drop_cr raw
    refuse (trim_space line == []) empty_record
    r ← or_fail (codec.decode line) invalid_json
    check_record store.sequence store.last_hash r
    verify_lines rest (record store {
      records = store.records ++ r ∷ [];
      last_hash = r.entry_hash;
      sequence = r.sequence;
    })

  -- OpenAuditStore of the file as the system gives it.
  unfoldable pub open_audit_store : Text → ReadFile → Result AuditError AuditStore
  open_audit_store path file = do
    refuse (trim_space path == []) path_required
    let empty : AuditStore = record { path = path; records = []; last_hash = []; sequence = 0 }
    elim file [
      | missing ↦ ok empty
      | unreadable ↦ err open_failed
      | content bytes ↦ verify_lines (scan_lines bytes) empty
    ]

  -- Append up to its calls to the file system: the record and its line.
  unfoldable pub prepare_record :
      Time → Entropy → AuditEvent → AuditStore → Result AuditError (AuditRecord × Text)
  prepare_record now entropy event store = do
    let draft = draft_record now entropy event store
    refuse (draft.event == [] || draft.actor.id == [] || draft.status == []) field_missing
    hash ← or_fail (audit_hash draft) not_canonical
    let r = record draft { entry_hash = hash }
    line ← or_fail (codec.encode r) not_encoded
    refuse (ltb max_audit_line (length line)) line_too_long
    ok (r, line)

  -- AuditStore.Append
  unfoldable pub append :
      Calls
      → Time
      → Entropy
      → AuditEvent
      → AuditStore
      → Option Text
      → Result AuditError AuditRecord × AuditStore × Option Text
  append calls now entropy event store file = elim (prepare_record now entropy event store) [
    | err e ↦ (err e, store, file)
    | ok (r, line) ↦ record_written r store (write_line calls line file)
  ]
