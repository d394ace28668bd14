-- ===== src/Broker/Client/Delivery.antt =====
-- internal/broker/client.go over internal/broker/server.go: what Client.Confirm returns, and what the
-- server has done.
use quantum_control.Prelude.{
  ◌≢◌, ℕ, ◌≡◌, sym, ap, subst, ◌∙◌, ◌⊎◌, inl, inr, some, [], ◌∷◌, Result, ok, err, Result-cases,
}
use quantum_control.Text.{Text, text}
use quantum_control.Security.Types.{GrantResponse}
use quantum_control.Security.Digest.{Sha256}
use quantum_control.Security.Plan.{PlanEncoder}
use quantum_control.Security.Grants.{StoreEncoder}
use quantum_control.Broker.Host.{Host}
use quantum_control.Broker.Registry.{Compile}
use quantum_control.Broker.Server.{
  ConfirmationEnvelope, envelope, post_confirm, Request, Body, State, Server, Draws, grant_body,
}
use quantum_control.Broker.Server.Guards.{IsConfirmed, serve_confirm_guarded}
use quantum_control.Broker.Client.{Sent, Codec, ClientError, transport, posted, exchanged, confirm}
use quantum_control.Broker.Client.Exchange.{
  Fate, undelivered, whole, delivery, delivered, read_reply, read_reply-after, read_reply-grant,
  read_reply-IsUnread, IsUnread, serve_confirm_replies, do_post-some, fate_cases,
}

module _ {W : Type 0} (host : Host W) (h : Sha256) (marshal : PlanEncoder) (compile : Compile)
    (quote : Text → Text) (encode : StoreEncoder) where
  exchange-IsConfirmed :
      (fuel : ℕ) (d : Draws) (server : Server) (receive : Sent → Request) (print : Body → Text)
      (fate : Fate) (codec : Codec) (token json : Text) (given : ConfirmationEnvelope)
      (state state' : State W) (result : Result ClientError GrantResponse)
      → fate ≢ undelivered
      → receive (posted (text "/v1/confirm") token json)
        ≡ record { token = token; route = post_confirm (envelope given) }
      → exchanged (201 ∷ []) codec.grant (
          delivery host h marshal compile quote encode fuel d server receive print fate
            (posted (text "/v1/confirm") token json)
            state)
        ≡ (result, state')
      → ((state' ≡ state) × (error : ClientError) × (result ≡ err error))
        ⊎ ((grant : GrantResponse) × IsConfirmed host h marshal compile quote encode d server token
              (envelope given)
              grant
              state
              state'
            × (((error : ClientError) × (result ≡ err error)
                  × IsUnread print codec fate (grant_body grant))
                ⊎ ((read : GrantResponse) × (result ≡ ok read)
                    × (fate ≡ whole)
                    × (codec.grant (print (grant_body grant)) ≡ some read))))
  unfolding read_reply
  exchange-IsConfirmed fuel d server receive print fate codec token json given state state' result
        arrives received exchange =
      let (reply, after, served) =
        serve_confirm_replies host h marshal compile quote encode fuel d server token
          (envelope given) state in
      let arrived =
        delivered host h marshal compile quote encode fuel d server receive print fate
          (posted (text "/v1/confirm") token json) _ reply state after arrives received served in
      let both : read_reply print codec fate reply after ≡ (result, state') =
        ap (exchanged (201 ∷ []) codec.grant) (sym arrived) ∙ exchange in
      let ended : after ≡ state' =
        sym (read_reply-after print codec fate reply after) ∙ ap (λ p. p.1) both in
      let read : (read_reply print codec fate reply after).0 ≡ result = ap (λ p. p.0) both in
      elim (serve_confirm_guarded host h marshal compile quote encode fuel d server token
        (envelope given) state after reply served) [
          | inl (same, other) ↦ elim (Result-cases result) [
            | inl (grant, returned) ↦
                absurd (
                  other ((read_reply-grant print codec fate reply after grant (read ∙ returned)).1))
            | inr (error, failed) ↦ inl (sym ended ∙ same, error, failed)
          ]
          | inr (grant, is_grant, confirmed) ↦ inr (
            grant,
            subst
                (IsConfirmed host h marshal compile quote encode d server token (envelope given)
                  grant state)
                ended confirmed,
            elim (Result-cases result) [
              | inr (error, failed) ↦ inl (
                error,
                failed,
                subst (λ b. IsUnread print codec fate b) (ap (λ r. r.body) is_grant)
                    (read_reply-IsUnread print codec fate reply after error (read ∙ failed)
                      (ap (λ r. r.status) is_grant)),
              )
              | inl (back, returned) ↦
                  let (all, _, decoded) =
                    read_reply-grant print codec fate reply after back (read ∙ returned) in
                  inr (
                    back,
                    returned,
                    all,
                    ap (λ r. codec.grant (print r.body)) (sym is_grant) ∙ decoded,
                  )
            ],
          )
        ]

  -- Where the server takes what the client sends, if it arrives, for the request, Client.Confirm
  -- either returns an error and has left the broker as it was, or the broker has issued one grant
  -- as it does for a confirmed request with the client's token, the plan and the actor's token. In
  -- the second case the client returns an error only if the reply does not come back whole, is over
  -- the limit of the client, or has a body that decodes to no grant, and otherwise returns what the
  -- body decodes to.
  pub client_confirm_guarded :
      (fuel : ℕ) (d : Draws) (server : Server) (receive : Sent → Request) (print : Body → Text)
      (fate : Fate) (codec : Codec) (token json : Text) (given : ConfirmationEnvelope)
      (state state' : State W) (result : Result ClientError GrantResponse)
      → codec.marshal_confirmation given ≡ some json
      → receive (posted (text "/v1/confirm") token json)
        ≡ record { token = token; route = post_confirm (envelope given) }
      → confirm
          (delivery host h marshal compile quote encode fuel d server receive print fate)
          codec
          token
          given.plan
          given.actor_token
          state
        ≡ (result, state')
      → ((state' ≡ state) × (error : ClientError) × (result ≡ err error))
        ⊎ ((grant : GrantResponse) × IsConfirmed host h marshal compile quote encode d server token
              (envelope given)
              grant
              state
              state'
            × (((error : ClientError) × (result ≡ err error)
                  × IsUnread print codec fate (grant_body grant))
                ⊎ ((read : GrantResponse) × (result ≡ ok read)
                    × (fate ≡ whole)
                    × (codec.grant (print (grant_body grant)) ≡ some read))))
  unfolding confirm delivery
  client_confirm_guarded fuel d server receive print fate codec token json given state state' result
        marshalled received run =
      let wire = delivery host h marshal compile quote encode fuel d server receive print fate in
      let sent = posted (text "/v1/confirm") token json in
      let exchange : exchanged (201 ∷ []) codec.grant (wire sent state) ≡ (result, state') =
        sym (
          do_post-some wire (text "/v1/confirm") token (201 ∷ []) codec.grant
            (codec.marshal_confirmation given) json state marshalled)
        ∙ run in
      fate_cases fate
        (λ missed. inl (
          sym (
              ap (λ p. p.1)
                (ap
                    (λ f. exchanged (201 ∷ []) codec.grant (
                      delivery host h marshal compile quote encode fuel d server receive print f
                        sent state))
                    (sym missed)
                  ∙ exchange)),
          transport,
          sym (
              ap (λ p. p.0)
                (ap
                    (λ f. exchanged (201 ∷ []) codec.grant (
                      delivery host h marshal compile quote encode fuel d server receive print f
                        sent state))
                    (sym missed)
                  ∙ exchange)),
        ))
        (λ arrives.
          exchange-IsConfirmed fuel d server receive print fate codec token json given state state'
            result arrives received exchange)
