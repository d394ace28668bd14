-- ===== src/Broker/Mutations/Polling.antt =====
-- The polling loop of waitForServicePostcondition: that it ends, and what it answers.
use quantum_control.Prelude.{
  ◌≢◌, ◌⊎◌, ok, err, if◌then◌else◌, ℕ, zero, suc, ◌≤◌, ◌<◌, ◌≡◌, refl, sym, subst, ◌∙◌, inl, inr,
  Bool, true, false, ◌||◌, not, Option, some, [], arith, Bool-cases, Result-cases,
}
use quantum_control.Text.{Text, text, ◌==◌, eq_iff}
use quantum_control.Protocol.{StringMap}
use quantum_control.Broker.Host.{Host, HasDeadline}
use quantum_control.Broker.Mutations.{state_value, reached, poll, wait_for}

-- The state that an action is for.
abbrev pub settled_state : Text → Text
settled_state action = if action == text "service.stop" then text "inactive" else text "active"

-- One poll of the host, by what the host answers: whether it has found the expected state, with
-- health where the state is active and a URL is given, and the host behind it.
pub data Round {W : Type 0} (host : Host W) (unit url expected : Text) : W → Bool → W → Type 0 where
  unobserved :
      (w : W) (x : Text)
      → (host.service_status unit w).0 ≡ err x
      → Round host unit url expected w false (host.service_status unit w).1
  elsewhere :
      (w : W) (s : StringMap)
      → (host.service_status unit w).0 ≡ ok s
      → state_value s (text "active_state") ≢ expected
      → Round host unit url expected w false (host.service_status unit w).1
  settled :
      (w : W) (s : StringMap)
      → (host.service_status unit w).0 ≡ ok s
      → state_value s (text "active_state") ≡ expected
      → (expected ≢ text "active") ⊎ (url ≡ [])
      → Round host unit url expected w true (host.service_status unit w).1
  checked :
      (w : W) (s : StringMap)
      → (host.service_status unit w).0 ≡ ok s
      → state_value s (text "active_state") ≡ expected
      → expected ≡ text "active"
      → url ≢ []
      → Round host unit url expected w
          (host.check url (host.service_status unit w).1).0
          (host.check url (host.service_status unit w).1).1

-- The polls between two states of the host, with a tick behind each.
pub data Polls {W : Type 0} (host : Host W) (unit url expected : Text) : W → W → Type 0 where
  stay : (w : W) → Polls host unit url expected w w
  next :
      (w seen v : W)
      → Round host unit url expected w false seen
      → (host.wait seen).0 ≡ true
      → Polls host unit url expected (host.wait seen).1 v
      → Polls host unit url expected w v

unchecked :
    (expected url : Text)
    → (not (expected == text "active") || url == []) ≡ true
    → (expected ≢ text "active") ⊎ (url ≡ [])
unchecked expected url q = elim (Bool-cases (expected == text "active")) [
  | inl a ↦ inr ((eq_iff url []).0 (ground arith))
  | inr a ↦ inl (λ t. ground (arith, eq_iff expected (text "active")))
]

unchecked_test :
    (expected url : Text)
    → (expected ≢ text "active") ⊎ (url ≡ [])
    → (not (expected == text "active") || url == []) ≡ true
unchecked_test expected url (inl n) =
    let other : (expected == text "active") ≡ false =
      ground (arith, eq_iff expected (text "active")) in
    ground arith
unchecked_test expected url (inr e) =
    let blank : (url == []) ≡ true = (eq_iff url []).1 e in ground arith

module _ {W : Type 0} (host : Host W) where
  -- A round gives no time back.
  pub poll_left :
      (d : HasDeadline host) (unit url expected : Text) (last : Option StringMap) (w : W)
      → d.left (poll host unit url expected last w).2 ≤ d.left w
  unfolding poll reached
  poll_left d unit url expected last w = elim (Result-cases (host.service_status unit w).0) [
    | inl (s, e) ↦ rw e (elim (Bool-cases (state_value s (text "active_state") == expected)) [
      | inl p ↦ rw p (elim (Bool-cases (not (expected == text "active") || url == [])) [
        | inl q ↦ rw q (d.status_left unit w)
        | inr q ↦
            rw q
              (omega (arith, d.check_left url (host.service_status unit w).1, d.status_left unit w))
      ])
      | inr p ↦ rw p (d.status_left unit w)
    ])
    | inr (x, e) ↦ rw e (d.status_left unit w)
  ]

  -- What a poll of the host finds.
  pub poll-Round :
      (unit url expected : Text) (last : Option StringMap) (w : W)
      → Round host unit url expected w
          (poll host unit url expected last w).0
          (poll host unit url expected last w).2
  unfolding poll reached
  poll-Round unit url expected last w = elim (Result-cases (host.service_status unit w).0) [
    | inr (x, e) ↦ rw e (unobserved w x e)
    | inl (s, e) ↦ rw e (elim (Bool-cases (state_value s (text "active_state") == expected)) [
      | inr p ↦ rw p (
          elsewhere w s e
            (λ t. ground (arith, eq_iff (state_value s (text "active_state")) expected)))
      | inl p ↦ rw p (elim (Bool-cases (not (expected == text "active") || url == [])) [
        | inl q ↦ rw q (settled w s e ((eq_iff _ _).0 p) (unchecked expected url q))
        | inr q ↦ rw q (
            checked w s e ((eq_iff _ _).0 p) ((eq_iff _ _).0 (ground arith))
              (λ t. ground (arith, eq_iff url [])))
      ])
    ])
  ]

  pub Round-poll :
      (unit url expected : Text) (last : Option StringMap) (w w' : W) (done : Bool)
      → Round host unit url expected w done w'
      → ((poll host unit url expected last w).0 ≡ done)
        × ((poll host unit url expected last w).2 ≡ w')
  unfolding poll reached
  Round-poll unit url expected last w w' done (unobserved _ x e) = rw e (refl, refl)
  Round-poll unit url expected last w w' done (elsewhere _ s e n) =
      let other : (state_value s (text "active_state") == expected) ≡ false =
        ground (arith, eq_iff (state_value s (text "active_state")) expected) in
      rw (e, other) (refl, refl)
  Round-poll unit url expected last w w' done (settled _ s e p n) =
      let same : (state_value s (text "active_state") == expected) ≡ true = (eq_iff _ _).1 p in
      rw (e, same, unchecked_test expected url n) (refl, refl)
  Round-poll unit url expected last w w' done (checked _ s e p a n) =
      let same : (state_value s (text "active_state") == expected) ≡ true = (eq_iff _ _).1 p in
      let tested : (not (expected == text "active") || url == []) ≡ false =
        ground (arith, eq_iff expected (text "active"), eq_iff url []) in
      rw (e, same, tested) (refl, refl)

  -- A round that ends the loop has observed the expected state.
  poll_sound :
      (unit url expected : Text) (last : Option StringMap) (w : W)
      → (poll host unit url expected last w).0 ≡ true
      → (s : StringMap) × ((poll host unit url expected last w).1 ≡ some s)
        × ((host.service_status unit w).0 ≡ ok s)
        × (state_value s (text "active_state") ≡ expected)
  unfolding poll reached
  poll_sound unit url expected last w done = elim (Result-cases (host.service_status unit w).0) [
    | inl (s, e) ↦ (s, rw e refl, e, (eq_iff _ _).0 (ground arith))
    | inr (x, e) ↦ absurd (ground arith)
  ]

  -- With more fuel than the deadline leaves time the loop ends, and it gives no time back.
  pub wait_for_ends :
      (d : HasDeadline host) (fuel : ℕ) (unit url expected : Text) (last : Option StringMap) (w : W)
      → d.left w < fuel
      → (o : Bool × Option StringMap × W) × (wait_for host fuel unit url expected last w ≡ some o)
        × (d.left o.2 ≤ d.left w)
  unfolding wait_for
  wait_for_ends d zero unit url expected last w n = absurd (omega arith)
  wait_for_ends d (suc fuel) unit url expected last w n =
      let round = poll host unit url expected last w in
      let tick = host.wait round.2 in
      elim (Bool-cases round.0) [
        | inl e ↦ ((true, round.1, round.2), rw e refl, poll_left d unit url expected last w)
        | inr e ↦ elim (Bool-cases tick.0) [
          | inl t ↦
              let (o, p, l) =
                wait_for_ends d fuel unit url expected round.1 tick.1
                  (omega (arith, poll_left d unit url expected last w, d.wait_left round.2 t)) in
              (
                o,
                rw (e, t) p,
                omega (arith, l, poll_left d unit url expected last w, d.end_left round.2),
              )
          | inr t ↦ (
            (false, round.1, tick.1),
            rw (e, t) refl,
            omega (arith, poll_left d unit url expected last w, d.end_left round.2),
          )
        ]
      ]

  -- A loop that succeeds has come, by rounds that did not end it and the ticks behind them, to a
  -- round that observed the expected state and ended it.
  pub wait_for_reached :
      (fuel : ℕ) (unit url expected : Text) (last last' : Option StringMap) (w w' : W)
      → wait_for host fuel unit url expected last w ≡ some (true, last', w')
      → (s : StringMap) × (v : W) × (last' ≡ some s)
        × Polls host unit url expected w v
        × ((host.service_status unit v).0 ≡ ok s)
        × Round host unit url expected v true w'
        × (state_value s (text "active_state") ≡ expected)
  unfolding wait_for
  wait_for_reached zero unit url expected last last' w w' e = absurd (ground arith)
  wait_for_reached (suc fuel) unit url expected last last' w w' e =
      let round = poll host unit url expected last w in
      let tick = host.wait round.2 in
      let found = poll-Round unit url expected last w in
      elim (Bool-cases round.0) [
        | inl r ↦
            let (s, p, q, k) = poll_sound unit url expected last w r in
            let seen : round.1 ≡ last' = ground arith in
            let after : round.2 ≡ w' = ground arith in
            (
              s,
              w,
              sym seen ∙ p,
              stay w,
              q,
              subst (λ x. Round host unit url expected w true x) after
                  (subst (λ b. Round host unit url expected w b round.2) r found),
              k,
            )
        | inr r ↦ elim (Bool-cases tick.0) [
          | inl t ↦
              let (s, v, p, polls, seen, ended, k) =
                wait_for_reached fuel unit url expected round.1 last' tick.1 w' (ground arith) in
              (
                s,
                v,
                p,
                next w round.2 v (subst (λ b. Round host unit url expected w b round.2) r found) t
                    polls,
                seen,
                ended,
                k,
              )
          | inr t ↦ absurd (ground arith)
        ]
      ]

  -- The loop gives up only where the context has ended.
  pub wait_for_ended :
      (ends : (w : W) → (host.wait w).0 ≡ false → host.ended (host.wait w).1 ≡ true) (fuel : ℕ)
      (unit url expected : Text) (last last' : Option StringMap) (w w' : W)
      → wait_for host fuel unit url expected last w ≡ some (false, last', w')
      → host.ended w' ≡ true
  unfolding wait_for
  wait_for_ended ends zero unit url expected last last' w w' e = absurd (ground arith)
  wait_for_ended ends (suc fuel) unit url expected last last' w w' e =
      let round = poll host unit url expected last w in
      let tick = host.wait round.2 in
      elim (Bool-cases round.0) [
        | inl r ↦ absurd (ground arith)
        | inr r ↦ elim (Bool-cases tick.0) [
          | inl t ↦
              wait_for_ended ends fuel unit url expected round.1 last' tick.1 w' (ground arith)
          | inr t ↦
              let final : tick.1 ≡ w' = ground arith in
              subst (λ v. host.ended v ≡ true) final (ends round.2 t)
        ]
      ]
