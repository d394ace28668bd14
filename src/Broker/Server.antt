-- ===== src/Broker/Server.antt =====
-- internal/broker/server.go: the server of the broker behind the decoding of its requests. The time
-- that writeProblem adds to a problem is left out.
pub mod Guards
use quantum_control.Prelude.{
  ℕ, zero, suc, ◌+◌, ◌-◌, ◌*◌, ◌%◌, ◌^◌, ◌≤◌, ◌<◌, min, ◌≡◌, refl, sym, ap, ap₂, subst, ◌∙◌, ◌≢◌,
  ◌↔◌, ◌⊎◌, inl, inr, Bool, true, false, ◌&&◌, ◌||◌, not, Option, none, some, List, [], ◌∷◌, ◌++◌,
  map, reverse, arith, ltb, leb, eqb, eqb_iff, eqb_refl, if◌then◌else◌, Bool-cases, Option-cases,
  Bool-ext, Result, ok, err, ◌>>=◌, ◌>>◌, require, refuse, or_fail, Result-cases, ok-injective,
  some_inj, length, take, All, All-append, All-map, length-append, length-take,
}
use quantum_control.Text.{Text, text, ◌==◌, eq_iff, eq_refl, eq_comm}
use quantum_control.Text.Trim.{trim_space}
use quantum_control.Clock.{Time}
use quantum_control.Protocol
use quantum_control.Protocol.{OperationRequest, OperationResponse, OperationDefinition, Problem}
use quantum_control.Security.Types.{OperationPlan, GrantResponse, Actor, actor_human, confirm}
use quantum_control.Security.Actor.{has_permission}
use quantum_control.Security.Auth.{Authenticator}
use quantum_control.Security.Digest.{Sha256}
use quantum_control.Security.Plan.{PlanEncoder, Entropy}
use quantum_control.Security.Grants.{GrantStore, GrantError, Disk, Calls, StoreEncoder, issue}
use quantum_control.Broker.Host.{Host}
use quantum_control.Broker.Registry
use quantum_control.Broker.Registry.{Registry, Compile, catalog, problem}
use quantum_control.Broker.Direct.{execute}
use quantum_control.Broker.Approved.{
  Moment, authenticate_actor, validate_approved_plan, handle_execute_approved, reject_approved,
}

pub record ConfirmationEnvelope : Type 0 where
  pub plan : OperationPlan
  pub actor_token : Text

pub record ApprovedExecutionEnvelope : Type 0 where
  pub plan : OperationPlan
  pub confirmation_token : Text
  pub actor_token : Text

-- What the strict decoder makes of a bounded body: no value of the type, a value that is followed by
-- more, or the value.
pub data Envelope {ℓ} (A : Type ℓ) : Type ℓ where
  unreadable : Envelope A
  followed : Envelope A
  envelope : A → Envelope A

-- The patterns of the multiplexer.
pub data Route : Type 0 where
  get_health get_operations : Route
  post_plan post_execute : Envelope OperationRequest → Route
  post_confirm : Envelope ConfirmationEnvelope → Route
  post_execute_approved : Envelope ApprovedExecutionEnvelope → Route

pub record Request : Type 0 where
  pub token : Text
  pub route : Route

pub data Body : Type 0 where
  problem_body : Problem → Body
  alive : Body
  catalog_body : List OperationDefinition → Body
  plan_body : Protocol.OperationPlan → Body
  response_body : OperationResponse → Body
  grant_body : GrantResponse → Body

pub record Reply : Type 0 where
  pub status : ℕ
  pub body : Body

-- The fields of Server that no request changes, with the authenticator of its boundary.
pub record Server : Type 0 where
  pub registry : Registry
  pub token : Text
  pub actors : Option Authenticator

-- The grant store, if there is one, its file, and the host.
pub record State (W : Type 0) : Type 0 where
  pub grants : Option GrantStore
  pub disk : Disk
  pub host : W

-- What a request takes from the clock, from crypto/rand and from the file system.
pub record Draws : Type 0 where
  pub arrived : Moment
  pub executed : Moment
  pub consumed : Time
  pub issued : Time
  pub random : Option (List ℕ)
  pub grant_id : Entropy
  pub calls : Calls

-- writeJSON and writeProblem
abbrev pub write_json : ℕ → Body → Reply
write_json status body = record { status = status; body = body }

abbrev pub write_problem : ℕ → Problem → Reply
write_problem status p = write_json status (problem_body p)

-- writeOperationResponse
unfoldable pub write_operation_response : OperationResponse → Reply
write_operation_response response =
    write_json
      (if response.status == text "rejected"
        then 400
        else if response.status == text "failed"
        then 500
        else 200)
      (response_body response)

-- decodeJSON
unfoldable pub decode_json {ℓ} : {A : Type ℓ} → Envelope A → Result Reply A
decode_json unreadable =
    err (write_problem 400 (problem (text "invalid_json") (text "valid JSON request required")))
decode_json followed = err (
    write_problem 400
      (problem (text "invalid_json") (text "request body must contain exactly one JSON object")))
decode_json (envelope a) = ok a

abbrev pub unauthorized : Reply
unauthorized =
    write_problem 401 (problem (text "unauthorized") (text "valid broker token required"))

-- The test of requireBrokerAuth; the comparison in constant time is equality of bytes.
unfoldable pub is_broker_token : Server → Text → Bool
is_broker_token server header =
    let provided = trim_space header in
    eqb (length provided) (length server.token) && provided == server.token

abbrev no_grants : Problem
no_grants =
    problem (text "confirmation_unavailable") (text "broker confirmation state is unavailable")

abbrev refused_problem {ℓ} : {A : Type ℓ} → Result Problem A → Result Reply A
refused_problem (ok a) = ok a
refused_problem (err p) = err (write_problem 400 p)

module _ (h : Sha256) (marshal : PlanEncoder) (compile : Compile) (quote : Text → Text) where
  -- handleConfirm up to Issue: the plan and its approver.
  unfoldable pub confirmation_of :
      Draws → Server → Envelope ConfirmationEnvelope → Result Reply (OperationPlan × Actor)
  confirmation_of d server body = do
    given ← decode_json body
    _ ←
        refused_problem
          (validate_approved_plan h marshal compile quote d.arrived.now server.registry given.plan)
    approver ← or_fail (authenticate_actor server.actors given.actor_token) (
        write_problem 401 (
          problem (text "approver_unauthorized") (text "valid human approver credential required")))
    refuse (not (approver.kind == actor_human) || not (has_permission approver confirm)) (
        write_problem 403
          (problem (text "approver_forbidden") (text "actor may not issue confirmation grants")))
    ok (given.plan, approver)

  module _ {W : Type 0} where
    abbrev pub issued_reply :
        State W → Result GrantError GrantResponse × GrantStore × Disk → Reply × State W
    issued_reply state (ok grant, store, disk) =
        (write_json 201 (grant_body grant), record state { grants = some store; disk = disk })
    issued_reply state (err e, store, disk) = (
      write_problem 400 (
          problem (text "confirmation_rejected")
            (text "operation plan cannot be confirmed under current policy")),
      record state { grants = some store; disk = disk },
    )

    -- handleConfirm with a grant store
    abbrev pub confirm_with :
        StoreEncoder
        → Draws
        → Server
        → Envelope ConfirmationEnvelope
        → State W
        → GrantStore
        → Reply × State W
    confirm_with encode d server body state store = elim (confirmation_of d server body) [
      | err reply ↦ (reply, state)
      | ok (plan, approver) ↦ issued_reply state (
          issue h marshal encode d.calls d.issued d.random d.grant_id plan approver store
            state.disk)
    ]

    -- handleConfirm
    unfoldable pub handle_confirm :
        StoreEncoder → Draws → Server → Envelope ConfirmationEnvelope → State W → Reply × State W
    handle_confirm encode d server body state = elim state.grants [
      | none ↦ (write_problem 503 no_grants, state)
      | some store ↦ confirm_with encode d server body state store
    ]

module _ {W : Type 0} (host : Host W) (h : Sha256) (marshal : PlanEncoder) (compile : Compile)
    (quote : Text → Text) (encode : StoreEncoder) where
  -- A handler's reply and the state behind it. The outer `none` is a lack of fuel, and the inner one
  -- a panic, after which the client gets no reply.
  abbrev pub Served : Type 0
  Served = Option (Option Reply × State W)

  abbrev pub served : Reply × State W → Served
  served (reply, state) = some (some reply, state)

  -- handlePlan
  unfoldable pub handle_plan : Server → Envelope OperationRequest → State W → Served
  handle_plan server body state = elim (decode_json body) [
    | err reply ↦ some (some reply, state)
    | ok request ↦
        let made = Registry.plan compile quote server.registry request in
        some (some (write_json (if not made.valid then 400 else 200) (plan_body made)), state)
  ]

  abbrev executed : State W → Option (OperationResponse × W) → Served
  executed state none = none
  executed state (some (response, w)) =
      some (some (write_operation_response response), record state { host = w })

  -- handleExecute
  unfoldable pub handle_execute : ℕ → Draws → Server → Envelope OperationRequest → State W → Served
  handle_execute fuel d server body state = elim (decode_json body) [
    | err reply ↦ some (some reply, state)
    | ok request ↦
        executed state
          (execute host compile quote fuel d.arrived server.registry request state.host)
  ]

  abbrev approved_reply : Option OperationResponse → Option Reply
  approved_reply none = none
  approved_reply (some response) = some (write_operation_response response)

  abbrev pub approved_state : Option (Option OperationResponse × GrantStore × Disk × W) → Served
  approved_state none = none
  approved_state (some (response, store, disk, w)) =
      some (approved_reply response, record { grants = some store; disk = disk; host = w })

  -- handleExecuteApproved on an envelope
  abbrev pub execute_envelope :
      ℕ → Draws → Server → ApprovedExecutionEnvelope → State W → Option GrantStore → Served
  execute_envelope fuel d server given state none =
      some (some (write_operation_response (reject_approved d.arrived given.plan no_grants)), state)
  execute_envelope fuel d server given state (some store) = approved_state (
      handle_execute_approved host h marshal compile quote fuel encode d.arrived d.calls d.consumed
        d.executed server.registry server.actors given.plan given.confirmation_token
        given.actor_token store state.disk state.host)

  -- handleExecuteApproved
  unfoldable pub handle_approved :
      ℕ → Draws → Server → Envelope ApprovedExecutionEnvelope → State W → Served
  handle_approved fuel d server body state = elim (decode_json body) [
    | err reply ↦ some (some reply, state)
    | ok given ↦ execute_envelope fuel d server given state state.grants
  ]

  -- requireBrokerAuth
  abbrev pub require_broker_auth : Server → Text → Served → State W → Served
  require_broker_auth server header next state =
      if is_broker_token server header then next else some (some unauthorized, state)

  -- Server.Handler
  unfoldable pub serve : ℕ → Draws → Server → Request → State W → Served
  serve fuel d server request state = elim request.route [
    | get_health ↦ some (some (write_json 200 alive), state)
    | get_operations ↦
        require_broker_auth server request.token
          (some (some (write_json 200 (catalog_body (catalog server.registry))), state)) state
    | post_plan body ↦
        require_broker_auth server request.token (handle_plan server body state) state
    | post_execute body ↦
        require_broker_auth server request.token (handle_execute fuel d server body state) state
    | post_confirm body ↦
        require_broker_auth server request.token
          (served (handle_confirm h marshal compile quote encode d server body state)) state
    | post_execute_approved body ↦
        require_broker_auth server request.token (handle_approved fuel d server body state) state
  ]
