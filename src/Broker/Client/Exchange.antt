-- ===== src/Broker/Client/Exchange.antt =====
-- internal/broker/client.go: the exchange of the client with internal/broker/server.go.
use quantum_control.Prelude.{
  err, ◌<◌, ◌⊎◌, ◌≢◌, take, ℕ, ◌≤◌, ◌≡◌, refl, ap, ◌∙◌, inl, inr, true, false, Option, none, some,
  List, [], ◌∷◌, arith, length, ltb, Bool-cases, Option-cases, Result, ok,
}
use quantum_control.Text.{Text}
use quantum_control.Security.Types.{GrantResponse}
use quantum_control.Security.Digest.{Sha256}
use quantum_control.Security.Plan.{PlanEncoder}
use quantum_control.Security.Grants.{StoreEncoder}
use quantum_control.Broker.Host.{Host}
use quantum_control.Broker.Registry.{Compile}
use quantum_control.Broker.Server.{
  ConfirmationEnvelope, post_confirm, Request, Body, Reply, State, Server, Draws, serve,
  is_broker_token, unauthorized, handle_confirm, Envelope,
}
use quantum_control.Broker.Client.{
  Sent, Answer, Wire, Codec, ClientError, contains_status, read_answer, do_post, posted, exchanged,
  max_broker_response_bytes,
}

-- The client returns a value for a whole body within the limit alone, of an accepted status, that
-- decodes to the value.
pub read_answer_accepted {ℓ} :
    {A : Type ℓ} (accepted : List ℕ) (decode : Text → Option A) (answer : Answer) (a : A)
    → (read_answer accepted decode answer ≡ ok a)
    → (length answer.bytes ≤ max_broker_response_bytes)
      × (answer.broken ≡ false)
      × (contains_status accepted answer.status ≡ true)
      × (decode answer.bytes ≡ some a)
unfolding read_answer
read_answer_accepted accepted decode answer a e =
    elim (Bool-cases (ltb max_broker_response_bytes (length answer.bytes))) [
      | inl t ↦ absurd (ground arith)
      | inr t ↦ elim (Bool-cases answer.broken) [
        | inl b ↦ absurd (ground arith)
        | inr b ↦ elim (Bool-cases (contains_status accepted answer.status)) [
          | inr c ↦ absurd (ground arith)
          | inl c ↦ elim (Option-cases (decode answer.bytes)) [
            | inl x ↦ absurd (ground arith)
            | inr (x, y) ↦ (ground arith, b, c, ground arith)
          ]
        ]
      ]
    ]

accepted_one : (n status : ℕ) → contains_status (n ∷ []) status ≡ true → status ≡ n
unfolding contains_status
accepted_one n status e = ground arith

-- What becomes of an exchange: the request does not arrive (no socket, or a timeout before it), the
-- server acts and no response comes back in time, its body breaks off behind some bytes, or all of
-- it comes back.
pub data Fate : Type 0 where
  undelivered lost whole : Fate
  broken_off : ℕ → Fate

pub fate_cases {ℓ} :
    {A : Type ℓ} (fate : Fate) → (fate ≡ undelivered → A) → (fate ≢ undelivered → A) → A
fate_cases undelivered f g = f refl
fate_cases lost f g = g (λ e. ground arith)
fate_cases whole f g = g (λ e. ground arith)
fate_cases (broken_off n) f g = g (λ e. ground arith)

pub do_post-some {ℓ} :
    {A : Type ℓ} {W : Type 0} (wire : Wire W) (path token : Text) (accepted : List ℕ)
    (decode : Text → Option A) (input : Option Text) (json : Text) (w : W)
    → input ≡ some json
    → do_post wire path token accepted decode input w
      ≡ exchanged accepted decode (wire (posted path token json) w)
unfolding do_post
do_post-some wire path token accepted decode input json w e = rw e refl

abbrev pub response_of : (Body → Text) → Fate → Reply → Option Answer
response_of print undelivered reply = none
response_of print lost reply = none
response_of print (broken_off n) reply =
    some (record { status = reply.status; bytes = take n (print reply.body); broken = true })
response_of print whole reply =
    some (record { status = reply.status; bytes = print reply.body; broken = false })

-- What keeps a client from reading a body of an accepted status.
abbrev pub IsUnread : (Body → Text) → Codec → Fate → Body → Type 0
IsUnread print codec fate body =
    (fate ≢ whole)
    ⊎ ((max_broker_response_bytes < length (print body)) ⊎ (codec.grant (print body) ≡ none))

read_answer_refused {ℓ} :
    {A : Type ℓ} (decode : Text → Option A) (answer : Answer) (error : ClientError)
    → read_answer (201 ∷ []) decode answer ≡ err error
    → answer.broken ≡ false
    → answer.status ≡ 201
    → (max_broker_response_bytes < length answer.bytes) ⊎ (decode answer.bytes ≡ none)
unfolding read_answer contains_status
read_answer_refused decode answer error e b s =
    elim (Bool-cases (ltb max_broker_response_bytes (length answer.bytes))) [
      | inl t ↦ inl (ground arith)
      | inr t ↦ elim (Option-cases (decode answer.bytes)) [
        | inl x ↦ inr x
        | inr (a, x) ↦ absurd (ground arith)
      ]
    ]

module _ {W : Type 0} where
  -- What Client.Confirm makes of the reply.
  unfoldable pub read_reply :
      (Body → Text) → Codec → Fate → Reply → State W → Result ClientError GrantResponse × State W
  read_reply print codec fate reply after =
      exchanged (201 ∷ []) codec.grant (response_of print fate reply, after)

  pub read_reply-after :
      (print : Body → Text) (codec : Codec) (fate : Fate) (reply : Reply) (after : State W)
      → (read_reply print codec fate reply after).1 ≡ after
  unfolding read_reply
  read_reply-after print codec undelivered reply after = refl
  read_reply-after print codec lost reply after = refl
  read_reply-after print codec (broken_off n) reply after = refl
  read_reply-after print codec whole reply after = refl

  -- The client returns a grant for a whole reply with 201 alone, and the one that its body decodes
  -- to.
  pub read_reply-grant :
      (print : Body → Text) (codec : Codec) (fate : Fate) (reply : Reply) (after : State W)
      (grant : GrantResponse)
      → (read_reply print codec fate reply after).0 ≡ ok grant
      → (fate ≡ whole) × (reply.status ≡ 201) × (codec.grant (print reply.body) ≡ some grant)
  unfolding read_reply
  read_reply-grant print codec undelivered reply after grant e = absurd (ground arith)
  read_reply-grant print codec lost reply after grant e = absurd (ground arith)
  read_reply-grant print codec (broken_off n) reply after grant e =
      let (_, broken, _, _) = read_answer_accepted (201 ∷ []) codec.grant _ grant e in
      absurd (ground arith)
  read_reply-grant print codec whole reply after grant e =
      let (_, _, accepted, decoded) = read_answer_accepted (201 ∷ []) codec.grant _ grant e in
      (refl, accepted_one 201 reply.status accepted, decoded)

  -- A 201 is refused only where it does not come back whole, is over the limit, or holds no grant.
  pub read_reply-IsUnread :
      (print : Body → Text) (codec : Codec) (fate : Fate) (reply : Reply) (after : State W)
      (error : ClientError)
      → (read_reply print codec fate reply after).0 ≡ err error
      → reply.status ≡ 201
      → IsUnread print codec fate reply.body
  unfolding read_reply
  read_reply-IsUnread print codec undelivered reply after error e s = inl (λ f. ground arith)
  read_reply-IsUnread print codec lost reply after error e s = inl (λ f. ground arith)
  read_reply-IsUnread print codec (broken_off n) reply after error e s = inl (λ f. ground arith)
  read_reply-IsUnread print codec whole reply after error e s =
      inr (read_answer_refused codec.grant _ error e refl s)

module _ {W : Type 0} (host : Host W) (h : Sha256) (marshal : PlanEncoder) (compile : Compile)
    (quote : Text → Text) (encode : StoreEncoder) where
  -- What the client sees of a served request. A panic and a lack of fuel end the exchange without a
  -- response.
  abbrev pub answered :
      (Body → Text) → Fate → State W → Option (Option Reply × State W) → Option Answer × State W
  answered print fate state none = (none, state)
  answered print fate state (some (none, after)) = (none, after)
  answered print fate state (some (some reply, after)) = (response_of print fate reply, after)

  -- A connection to the server: net/http and the decoders make the request of what the client
  -- sends, and the encoder prints the body of the reply.
  unfoldable pub delivery :
      ℕ → Draws → Server → (Sent → Request) → (Body → Text) → Fate → Wire (State W)
  delivery fuel d server receive print undelivered sent state = (none, state)
  delivery fuel d server receive print lost sent state =
      answered print lost state
        (serve host h marshal compile quote encode fuel d server (receive sent) state)
  delivery fuel d server receive print (broken_off n) sent state =
      answered print (broken_off n) state
        (serve host h marshal compile quote encode fuel d server (receive sent) state)
  delivery fuel d server receive print whole sent state =
      answered print whole state
        (serve host h marshal compile quote encode fuel d server (receive sent) state)

  pub serve_confirm_replies :
      (fuel : ℕ) (d : Draws) (server : Server) (header : Text)
      (body : Envelope ConfirmationEnvelope) (state : State W)
      → (reply : Reply) × (after : State W) × (serve host h marshal compile quote encode fuel d
            server
            (record { token = header; route = post_confirm body })
            state
          ≡ some (some reply, after))
  unfolding serve
  serve_confirm_replies fuel d server header body state =
      elim (Bool-cases (is_broker_token server header)) [
        | inl t ↦
            let outcome = handle_confirm h marshal compile quote encode d server body state in
            (outcome.0, outcome.1, ground arith)
        | inr t ↦ (unauthorized, state, ground arith)
      ]

  pub delivered :
      (fuel : ℕ) (d : Draws) (server : Server) (receive : Sent → Request) (print : Body → Text)
      (fate : Fate) (sent : Sent) (request : Request) (reply : Reply) (state after : State W)
      → fate ≢ undelivered
      → receive sent ≡ request
      → serve host h marshal compile quote encode fuel d server request state
        ≡ some (some reply, after)
      → delivery fuel d server receive print fate sent state ≡ (response_of print fate reply, after)
  unfolding delivery
  delivered fuel d server receive print undelivered sent request reply state after f received
        served =
      absurd (f refl)
  delivered fuel d server receive print lost sent request reply state after f received served =
      ap (answered print lost state) (
        ap (λ r. serve host h marshal compile quote encode fuel d server r state) received ∙ served)
  delivered fuel d server receive print (broken_off n) sent request reply state after f received
        served =
      ap (answered print (broken_off n) state) (
        ap (λ r. serve host h marshal compile quote encode fuel d server r state) received ∙ served)
  delivered fuel d server receive print whole sent request reply state after f received served =
      ap (answered print whole state) (
        ap (λ r. serve host h marshal compile quote encode fuel d server r state) received ∙ served)
