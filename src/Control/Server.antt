-- ===== src/Control/Server.antt =====
-- internal/control/server.go: the server with what it depends on, its state and its replies.
use quantum_control.Prelude.{
  ℕ, ◌*◌, Bool, Option, none, some, List, ◌++◌, if◌then◌else◌, Result, ok, err,
}
use quantum_control.Text.{Text, text, ◌==◌}
use quantum_control.Clock.{Time, Duration, minute}
use quantum_control.Prelude.Int.{pos, not_positive}
use quantum_control.Text.Hex
use quantum_control.Protocol.{OperationResponse, OperationDefinition, Problem, Fields}
use quantum_control.Security.Types.{Actor, OperationPlan, GrantResponse, AuditRecord, AuditEvent}
use quantum_control.Security.Auth.{Authenticator}
use quantum_control.Security.Cache.{PlanCache, new_plan_cache}
use quantum_control.Security.Digest.{Sha256}
use quantum_control.Security.Plan.{Entropy, random, clock_digits}
use quantum_control.Security.Audit.{AuditStore, AuditCodec, AuditError, Calls, append}
use quantum_control.Security.Audit.Integrity.{AuditIntegrity}
pub use quantum_control.Broker.Client.{BrokerApi, ApprovalApi}
use quantum_control.Inventory.{Component, Snapshot, Scanner}

-- SecurityDependencies. A nil pointer is `none`; the audit store comes with the bytes of its file,
-- and the TTL is that of the plan builder.
pub record SecurityDependencies : Type 0 where
  pub authenticator : Option Authenticator
  pub audit : Option AuditStore
  pub plans : Option PlanCache
  pub ttl : Duration

-- The parts of a server that no request changes. `approval` is the broker where it is an ApprovalAPI.
pub record Server (W : Type 0) : Type 0 where
  pub broker : BrokerApi W
  pub approval : Option (ApprovalApi W)
  pub scanner : Scanner W
  pub authenticator : Option Authenticator
  pub ttl : Duration

-- What the requests change. NewServerWithSecurity leaves no nil plan cache, so that the handlers'
-- tests for one never hold and are left out.
pub record State (W : Type 0) : Type 0 where
  pub plans : PlanCache
  pub audit : Option AuditStore
  pub file : Option Text
  pub world : W

abbrev cache_or_new : Option PlanCache → PlanCache
cache_or_new none = new_plan_cache
cache_or_new (some c) = c

-- The clock, the random bytes and the file system of one append to the audit log.
pub record Stamp : Type 0 where
  pub calls : Calls
  pub now : Time
  pub entropy : Entropy

-- What one request takes from the clock and from crypto/rand: its ID, the plan that it builds, the
-- time at which it uses the plan cache, and up to two appends.
pub record Draws : Type 0 where
  pub request_id : Entropy
  pub built : Time
  pub plan_id : Entropy
  pub cached : Time
  pub first : Stamp
  pub second : Stamp

-- newRequestID
unfoldable pub new_request_id : Entropy → Text
new_request_id (random bytes) = Hex.encode bytes
new_request_id (clock_digits digits) = text "request-" ++ digits

-- The context of an authorised request.
pub record Context : Type 0 where
  pub request_id : Text
  pub session_id : Text
  pub actor : Actor
  pub credential : Text

-- The payloads of writeJSON, before their encoding. A problem comes with the ID of the request.
pub data Body : Type 0 where
  problem_body : Problem → Text → Body
  online : Body
  alive : Body
  ready : Body
  info_body : Bool → Bool → Body
  catalog_body : List OperationDefinition → Body
  plan_body : OperationPlan → Body
  response_body : OperationResponse → Body
  result_body : Option Fields → Body
  grant_body : GrantResponse → Body
  audit_body : AuditIntegrity → List AuditRecord → Body
  integrity_body : AuditIntegrity → Body
  audit_missing : Body
  snapshot_body : Snapshot → Body
  component_body : Component → Body

pub record Reply : Type 0 where
  pub status : ℕ
  pub body : Body

-- writeJSON
abbrev pub write_json : ℕ → Body → Reply
write_json status body = record { status = status; body = body }

-- writeProblem
abbrev pub write_problem : Text → ℕ → Text → Text → Reply
write_problem request_id status code message =
    write_json status (problem_body (record { code = code; message = message }) request_id)

-- operationHTTPStatus
unfoldable pub operation_http_status : Text → ℕ
operation_http_status status =
    if status == text "completed"
    then 200
    else if status == text "rejected"
    then 400
    else if status == text "failed"
    then 500
    else 502

-- brokerGatewayError
abbrev pub broker_gateway_error : Text → Reply
broker_gateway_error request_id =
    write_problem request_id 502 (text "broker_error")
      (text "The privileged broker request failed.")

-- The outcome of the strict decoding of a bounded body with one JSON value: the body is over the
-- limit, no JSON value of the type, with the decoder's message, or followed by more.
pub data Decoded {ℓ} (A : Type ℓ) : Type ℓ where
  too_large : Decoded A
  malformed : Text → Decoded A
  trailing : Decoded A
  decoded : A → Decoded A

-- The replies of the handlers to a body that is not decoded. The argument gives the message of a
-- malformed body.
unfoldable pub decode_body {ℓ} : {A : Type ℓ} → Text → (Text → Text) → Decoded A → Result Reply A
decode_body id message too_large = err (
    write_problem id 413 (text "request_too_large")
      (text "The request body exceeds the configured limit."))
decode_body id message (malformed e) = err (write_problem id 400 (text "invalid_json") (message e))
decode_body id message trailing = err (
    write_problem id 400 (text "invalid_json")
      (text "The request body must contain exactly one JSON object."))
decode_body id message (decoded a) = ok a

module _ {W : Type 0} where
  -- NewServerWithSecurity, over the bytes of the audit file.
  unfoldable pub new_server_with_security :
      BrokerApi W
      → Option (ApprovalApi W)
      → Scanner W
      → SecurityDependencies
      → Option Text
      → W
      → Server W × State W
  new_server_with_security broker approval scanner dependencies file world = (
    record {
      broker = broker;
      approval = approval;
      scanner = scanner;
      authenticator = dependencies.authenticator;
      ttl = if not_positive dependencies.ttl then pos (5 * minute) else dependencies.ttl;
    },
    record {
      plans = cache_or_new dependencies.plans;
      audit = dependencies.audit;
      file = file;
      world = world;
    },
  )

  abbrev pub at_world : State W → W → State W
  at_world state w = record state { world = w }

  abbrev audited : State W → Result AuditError AuditRecord × AuditStore × Option Text → State W
  audited state (answer, store, file) = record state { audit = some store; file = file }

  -- Server.appendAudit: an error is only logged.
  unfoldable pub append_audit : Sha256 → AuditCodec → Stamp → AuditEvent → State W → State W
  append_audit h codec stamp event state = elim state.audit [
    | none ↦ state
    | some store ↦
        audited state (append h codec stamp.calls stamp.now stamp.entropy event store state.file)
  ]
