-- ===== src/Broker/Client.antt =====
-- internal/broker/client.go: the client that the control server calls the broker with.
pub mod Exchange
pub mod Delivery
use quantum_control.Prelude.{
  ℕ, ◌+◌, ◌*◌, ◌≡◌, refl, Bool, true, false, ◌&&◌, ◌||◌, not, Option, none, some, List, [], ◌∷◌,
  ltb, eqb, length, take, if◌then◌else◌, Result, ok, err,
}
use quantum_control.Text.{Text, text}
use quantum_control.Text.Trim.{trim_space}
use quantum_control.Protocol
use quantum_control.Protocol.{OperationRequest, OperationResponse, OperationDefinition, Fields}
use quantum_control.Security.Types.{OperationPlan, GrantResponse}
use quantum_control.Broker.Server.{ConfirmationEnvelope, ApprovedExecutionEnvelope}

-- The interface broker.API over the state W of the broker and its host. An error is `false` or
-- `none`: the server reads nothing else of it.
pub record BrokerApi (W : Type 0) : Type 0 where
  pub health : W → Bool × W
  pub catalog : W → Option (List OperationDefinition) × W
  pub plan : OperationRequest → W → Option Protocol.OperationPlan × W
  pub execute : OperationRequest → W → Option OperationResponse × W

-- The interface broker.ApprovalAPI: the plan, the confirmation token and the actor's token.
pub record ApprovalApi (W : Type 0) : Type 0 where
  pub confirm : OperationPlan → Text → W → Option GrantResponse × W
  pub execute_approved : OperationPlan → Text → Text → W → Option OperationResponse × W

-- 4 << 20
abbrev pub max_broker_response_bytes : ℕ
max_broker_response_bytes = 4194304

-- 64 << 10
abbrev pub max_message_bytes : ℕ
max_message_bytes = 65536

-- A request as it is handed to net/http: the headers that the client sets, and the body.
pub record Sent : Type 0 where
  pub method : Text
  pub path : Text
  pub content_type : Option Text
  pub token : Option Text
  pub body : Option Text

-- A response of net/http: the bytes that its body yields, and whether reading fails after them.
pub record Answer : Type 0 where
  pub status : ℕ
  pub bytes : Text
  pub broken : Bool

-- httpClient.Do over the state W of the other side: `none` is its error.
abbrev pub Wire : Type 0 → Type 0
Wire W = Sent → W → Option Answer × W

-- encoding/json at the types of the two processes; `none` is an error. The decoders take a whole
-- body, `object` one of health, and `operations` the field of a catalog.
pub record Codec : Type 0 where
  pub marshal_request : OperationRequest → Option Text
  pub marshal_confirmation : ConfirmationEnvelope → Option Text
  pub marshal_execution : ApprovedExecutionEnvelope → Option Text
  pub object : Text → Option Fields
  pub operations : Text → Option (List OperationDefinition)
  pub plan : Text → Option Protocol.OperationPlan
  pub response : Text → Option OperationResponse
  pub grant : Text → Option GrantResponse

-- The errors of do. http.NewRequestWithContext has none for the methods and paths of the client.
pub data ClientError : Type 0 where
  encode_request transport read_response oversized decode_response : ClientError
  unexpected_status : ℕ → Text → ClientError

-- containsStatus
unfoldable pub contains_status : List ℕ → ℕ → Bool
contains_status [] status = false
contains_status (accepted ∷ others) status = eqb accepted status || contains_status others status

-- do behind the exchange; every caller passes an output. A body over the limit is read to the byte
-- behind the limit, so that its reading does not fail.
unfoldable pub read_answer {ℓ} :
    {A : Type ℓ} → List ℕ → (Text → Option A) → Answer → Result ClientError A
read_answer accepted decode answer =
    if ltb max_broker_response_bytes (length answer.bytes)
    then err oversized
    else if answer.broken
    then err read_response
    else if not (contains_status accepted answer.status)
    then err (unexpected_status answer.status (take max_message_bytes (trim_space answer.bytes)))
    else elim (decode answer.bytes) [ none ↦ err decode_response | some a ↦ ok a ]

abbrev pub posted : Text → Text → Text → Sent
posted path token json = record {
  method = text "POST";
  path = path;
  content_type = some (text "application/json");
  token = some token;
  body = some json;
}

abbrev pub exchanged {ℓ} :
    {A : Type ℓ} {W : Type 0}
    → List ℕ
    → (Text → Option A)
    → Option Answer × W
    → Result ClientError A × W
exchanged accepted decode (none, w) = (err transport, w)
exchanged accepted decode (some answer, w) = (read_answer accepted decode answer, w)

abbrev answer_of {ℓ} : {A : Type ℓ} {W : Type 0} → Result ClientError A × W → Option A × W
answer_of (ok a, w) = (some a, w)
answer_of (err e, w) = (none, w)

abbrev is_ok {ℓ} : {A : Type ℓ} {W : Type 0} → Result ClientError A × W → Bool × W
is_ok (ok a, w) = (true, w)
is_ok (err e, w) = (false, w)

module _ {W : Type 0} (wire : Wire W) where
  -- Client.do without an input
  unfoldable pub do_get {ℓ} :
      {A : Type ℓ} → Text → Option Text → List ℕ → (Text → Option A) → W → Result ClientError A × W
  do_get path token accepted decode w = exchanged accepted decode (
      wire
        (record {
          method = text "GET";
          path = path;
          content_type = none;
          token = token;
          body = none;
        })
        w)

  -- Client.do with an input, after json.Marshal of it
  unfoldable pub do_post {ℓ} :
      {A : Type ℓ}
      → Text
      → Text
      → List ℕ
      → (Text → Option A)
      → Option Text
      → W
      → Result ClientError A × W
  do_post path token accepted decode input w = elim input [
    | none ↦ (err encode_request, w)
    | some json ↦ exchanged accepted decode (wire (posted path token json) w)
  ]

  module _ (codec : Codec) (token : Text) where
    -- Client.Health
    unfoldable pub health : W → Result ClientError Fields × W
    health = do_get (text "/healthz") none (200 ∷ []) codec.object

    -- Client.Catalog
    unfoldable pub catalog : W → Result ClientError (List OperationDefinition) × W
    catalog = do_get (text "/v1/operations") (some token) (200 ∷ []) codec.operations

    -- Client.Plan
    unfoldable pub plan : OperationRequest → W → Result ClientError Protocol.OperationPlan × W
    plan request =
        do_post (text "/v1/plan") token (200 ∷ 400 ∷ []) codec.plan (codec.marshal_request request)

    -- Client.Execute
    unfoldable pub execute : OperationRequest → W → Result ClientError OperationResponse × W
    execute request =
        do_post (text "/v1/execute") token (200 ∷ 400 ∷ 500 ∷ []) codec.response
          (codec.marshal_request request)

    -- Client.Confirm
    unfoldable pub confirm : OperationPlan → Text → W → Result ClientError GrantResponse × W
    confirm approved actor_token =
        do_post (text "/v1/confirm") token (201 ∷ []) codec.grant
          (codec.marshal_confirmation (record { plan = approved; actor_token = actor_token }))

    -- Client.ExecuteApproved
    unfoldable pub execute_approved :
        OperationPlan → Text → Text → W → Result ClientError OperationResponse × W
    execute_approved approved confirmation_token actor_token =
        do_post (text "/v1/execute-approved") token (200 ∷ 400 ∷ 500 ∷ []) codec.response (
          codec.marshal_execution (record {
            plan = approved;
            confirmation_token = confirmation_token;
            actor_token = actor_token;
          }))

    -- The client as a broker.API and a broker.ApprovalAPI
    abbrev pub client_api : BrokerApi W
    client_api = record {
      health = λ w. is_ok (health w);
      catalog = λ w. answer_of (catalog w);
      plan = λ request w. answer_of (plan request w);
      execute = λ request w. answer_of (execute request w);
    }

    abbrev pub client_approval : ApprovalApi W
    client_approval = record {
      confirm = λ approved actor_token w. answer_of (confirm approved actor_token w);
      execute_approved =
          λ approved given actor_token w. answer_of (execute_approved approved given actor_token w);
    }
