-- ===== src/Broker/Server/Guards.antt =====
-- What the server of the broker lets change its grants.
use quantum_control.Prelude.{
  ℕ, ◌≡◌, refl, sym, ap, subst, ◌∙◌, ◌⊎◌, inl, inr, true, some, [], ◌∷◌, ◌++◌, arith, Bool-cases,
  Option-cases, ok, err, ◌≢◌, Result-cases,
}
use quantum_control.Text.{Text, eq_iff}
use quantum_control.Security.Types.{OperationPlan, GrantResponse, Actor, actor_human, confirm}
use quantum_control.Security.Actor.{has_permission}
use quantum_control.Security.Digest.{Sha256}
use quantum_control.Security.Plan.{PlanEncoder}
use quantum_control.Security.Grants.{GrantStore, StoreEncoder, issue}
use quantum_control.Security.Grants.Save.{with_grants}
use quantum_control.Security.Grants.Issue.{issue_cases}
use quantum_control.Broker.Host.{Host}
use quantum_control.Broker.Registry.{Compile}
use quantum_control.Broker.Approved.{authenticate_actor, validate_approved_plan}
use quantum_control.Broker.Server.{
  ConfirmationEnvelope, Envelope, envelope, unreadable, followed, post_confirm, Reply, State,
  Server, Draws, decode_json, is_broker_token, confirmation_of, handle_confirm, serve, grant_body,
  write_json,
}

module _ {W : Type 0} (host : Host W) (h : Sha256) (marshal : PlanEncoder) (compile : Compile)
    (quote : Text → Text) (encode : StoreEncoder) where
  -- What stands behind a grant that the broker has issued.
  pub record IsConfirmed (d : Draws) (server : Server) (header : Text)
      (body : Envelope ConfirmationEnvelope) (grant : GrantResponse) (state state' : State W)
      : Type 0 where
    pub given : ConfirmationEnvelope
    pub approver : Actor
    pub store : GrantStore
    pub store' : GrantStore
    pub token : is_broker_token server header ≡ true
    pub decoded : body ≡ envelope given
    pub valid :
        validate_approved_plan h marshal compile quote d.arrived.now server.registry given.plan
        ≡ ok tt
    pub authentic : authenticate_actor server.actors given.actor_token ≡ some approver
    pub human : approver.kind ≡ actor_human
    pub permitted : has_permission approver confirm ≡ true
    pub present : state.grants ≡ some store
    pub issued :
        issue h marshal encode d.calls d.issued d.random d.grant_id given.plan approver store
          state.disk
        ≡ (ok grant, store', state'.disk)
    pub left : state'.grants ≡ some store'
    pub same_host : state'.host ≡ state.host

  confirmation_inv :
      (d : Draws) (server : Server) (body : Envelope ConfirmationEnvelope) (plan : OperationPlan)
      (approver : Actor)
      → confirmation_of h marshal compile quote d server body ≡ ok (plan, approver)
      → (given : ConfirmationEnvelope) × (body ≡ envelope given)
        × (given.plan ≡ plan)
        × (validate_approved_plan h marshal compile quote d.arrived.now server.registry plan
            ≡ ok tt)
        × (authenticate_actor server.actors given.actor_token ≡ some approver)
        × (approver.kind ≡ actor_human)
        × (has_permission approver confirm ≡ true)
  unfolding confirmation_of decode_json
  confirmation_inv d server unreadable plan approver e = absurd (ground arith)
  confirmation_inv d server followed plan approver e = absurd (ground arith)
  confirmation_inv d server (envelope given) plan approver e =
      elim (Result-cases
        (validate_approved_plan h marshal compile quote d.arrived.now server.registry given.plan)) [
          | inr (p, v) ↦ absurd (ground arith)
          | inl (u, v) ↦ elim (Option-cases (authenticate_actor server.actors given.actor_token)) [
            | inl a ↦ absurd (ground arith)
            | inr (found, a) ↦
                let same : (given.plan ≡ plan) × (found ≡ approver) =
                  (ground arith, ground arith) in
                (
                  given,
                  refl,
                  same.0,
                  subst
                      (λ p.
                        validate_approved_plan h marshal compile quote d.arrived.now server.registry
                          p
                        ≡ ok tt)
                      same.0 v,
                  a ∙ ap some same.1,
                  (eq_iff _ _).0 (ground arith),
                  ground arith,
                )
          ]
        ]

  confirmation_refused :
      (d : Draws) (server : Server) (body : Envelope ConfirmationEnvelope) (reply : Reply)
      → confirmation_of h marshal compile quote d server body ≡ err reply
      → reply.status ≢ 201
  unfolding confirmation_of decode_json
  confirmation_refused d server unreadable reply e = λ s. ground arith
  confirmation_refused d server followed reply e = λ s. ground arith
  confirmation_refused d server (envelope given) reply e =
      elim (Result-cases
        (validate_approved_plan h marshal compile quote d.arrived.now server.registry given.plan)) [
          | inr (p, v) ↦ λ s. ground arith
          | inl (u, v) ↦ elim (Option-cases (authenticate_actor server.actors given.actor_token)) [
            | inl a ↦ λ s. ground arith
            | inr (found, a) ↦ λ s. ground arith
          ]
        ]

  -- The broker issues a grant on its confirmation route alone for a request that shows the broker
  -- token and a credential that authenticates a human with the permission to confirm, for a plan
  -- that is valid against the registry, through the grant store; any other request to that route
  -- is not answered with 201 and leaves the grants, their file and the host as they were.
  pub serve_confirm_guarded :
      (fuel : ℕ) (d : Draws) (server : Server) (header : Text)
      (body : Envelope ConfirmationEnvelope) (state state' : State W) (reply : Reply)
      → serve host h marshal compile quote encode fuel d server
          (record { token = header; route = post_confirm body })
          state
        ≡ some (some reply, state')
      → ((state' ≡ state) × (reply.status ≢ 201))
        ⊎ ((grant : GrantResponse) × (reply ≡ write_json 201 (grant_body grant))
            × IsConfirmed d server header body grant state state')
  unfolding serve handle_confirm
  serve_confirm_guarded fuel d server header body state state' reply run =
      elim (Bool-cases (is_broker_token server header)) [
        | inr t ↦ inl (ground arith, λ s. ground arith)
        | inl t ↦ elim (Option-cases state.grants) [
          | inl g ↦ inl (ground arith, λ s. ground arith)
          | inr (store, g) ↦
              elim (Result-cases (confirmation_of h marshal compile quote d server body)) [
                | inr (refusal, c) ↦
                    let same : refusal ≡ reply = ground arith in
                    inl (
                      ground arith,
                      subst (λ r. r.status ≢ 201) same
                          (confirmation_refused d server body refusal c),
                    )
                | inl ((plan, approver), c) ↦
                    elim (issue_cases h marshal encode d.calls d.issued d.random d.grant_id plan
                      approver store state.disk) [
                        | inr (e, i) ↦ inl (ground arith, λ s. ground arith)
                        | inl (stored, grant, json, _, _, i) ↦
                            let (given, decoded, same, valid, authentic, human, permitted) =
                              confirmation_inv d server body plan approver c in
                            let after = with_grants store (store.state.grants ++ stored ∷ []) in
                            let file : some (json ++ 10 ∷ []) ≡ state'.disk = ground arith in
                            inr (
                              grant,
                              ground arith,
                              record {
                                given = given;
                                approver = approver;
                                store = store;
                                store' = after;
                                token = t;
                                decoded = decoded;
                                valid =
                                    subst
                                      (λ p.
                                        validate_approved_plan h marshal compile quote d.arrived.now
                                          server.registry p
                                        ≡ ok tt)
                                      (sym same) valid;
                                authentic = authentic;
                                human = human;
                                permitted = permitted;
                                present = g;
                                issued =
                                    ap
                                      (λ p.
                                        issue h marshal encode d.calls d.issued d.random d.grant_id
                                          p approver store state.disk)
                                      same
                                    ∙ i
                                    ∙ ap (λ f. (ok grant, after, f)) file;
                                left = ground arith;
                                same_host = ground arith;
                              },
                            )
                      ]
              ]
        ]
      ]
