-- ===== src/Checks/Client.antt =====
-- The client of the broker over its server at concrete inputs.
use quantum_control.Prelude.{
  ◌≡◌, refl, ◌⊎◌, Option, none, some, [], ◌∷◌, Result, ok, err, if◌then◌else◌, true, false,
}
use quantum_control.Text.{Text, text, ◌==◌}
use quantum_control.Text.Trim.{trim_space}
use quantum_control.Security.Types.{GrantResponse}
use quantum_control.Broker.Server.{
  Request, Body, grant_body, State, envelope, unreadable, post_confirm,
}
use quantum_control.Broker.Server.Guards.{IsConfirmed}
use quantum_control.Broker.Client.{
  Sent, Codec, ClientError, posted, confirm, read_answer, contains_status, unexpected_status,
  read_response,
}
use quantum_control.Broker.Client.Delivery.{client_confirm_guarded}
use quantum_control.Broker.Client.Exchange.{IsUnread, Fate, whole, delivery}
use quantum_control.Checks.Data.{sha, marshal}
use quantum_control.Checks.Grants.{encode, grant}
use quantum_control.Checks.Broker.{Machine, machine}
use quantum_control.Checks.Approved.{compile, quote}
use quantum_control.Checks.Confirm.{server, draws, state, given}

abbrev body_text : Option Text → Text
body_text none = []
body_text (some t) = t

abbrev receive : Sent → Request
receive sent = record {
  token = body_text sent.token;
  route =
      post_confirm (if body_text sent.body == text "{plan}" then envelope given else unreadable);
}

abbrev print : Body → Text
print (grant_body grant) = grant.token
print other = text "{}"

abbrev decode_grant : Text → Option GrantResponse
decode_grant [] = none
decode_grant (c ∷ t) = some (record { grant = grant; token = c ∷ t })

abbrev codec : Codec
codec = record {
  marshal_request = λ _. none;
  marshal_confirmation = λ _. some (text "{plan}");
  marshal_execution = λ _. none;
  object = λ _. none;
  operations = λ _. none;
  plan = λ _. none;
  response = λ _. none;
  grant = decode_grant;
}

abbrev outcome : Fate → Result ClientError GrantResponse × State Machine
outcome fate =
    confirm
      (delivery (machine true) sha marshal compile quote encode 3 draws server receive print fate)
      codec (text "wire") given.plan given.actor_token state

received :
    receive (posted (text "/v1/confirm") (text "wire") (text "{plan}"))
    ≡ record { token = text "wire"; route = post_confirm (envelope given) }
unfolding text ◌==◌
received = refl

client_confirm_guarded_example :
    (((outcome whole).1 ≡ state) × (error : ClientError) × ((outcome whole).0 ≡ err error))
    ⊎ ((grant : GrantResponse) × IsConfirmed
          (machine true)
          sha
          marshal
          compile
          quote
          encode
          draws
          server
          (text "wire")
          (envelope given)
          grant
          state
          (outcome whole).1
        × (((error : ClientError) × ((outcome whole).0 ≡ err error)
              × IsUnread print codec whole (grant_body grant))
            ⊎ ((read : GrantResponse) × ((outcome whole).0 ≡ ok read)
                × (whole ≡ whole)
                × (codec.grant (print (grant_body grant)) ≡ some read))))
client_confirm_guarded_example =
    client_confirm_guarded (machine true) sha marshal compile quote encode 3 draws server receive
      print whole codec (text "wire") (text "{plan}") given state (outcome whole).1
      (outcome whole).0 refl received refl

-- A refusal is an error with its trimmed text, and a body that breaks off is one of its own.
refused :
    read_answer
      (201 ∷ [])
      codec.grant
      (record { status = 403; bytes = text " no\n"; broken = false })
    ≡ err (unexpected_status 403 (text "no"))
unfolding read_answer contains_status text trim_space
refused = refl

broke_off :
    read_answer (201 ∷ []) codec.grant (record { status = 201; bytes = text "{"; broken = true })
    ≡ err read_response
unfolding read_answer contains_status text
broke_off = refl
