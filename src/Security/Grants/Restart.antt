-- ===== src/Security/Grants/Restart.antt =====
-- What a new process finds: the file of the store decodes to the grants of the old one.
use quantum_control.Prelude.{
  ℕ, ◌*◌, ◌≤◌, ◌≡◌, refl, sym, ap, ap₂, ◌∙◌, inl, inr, Bool, true, false, ◌||◌, not, Option, some,
  List, [], ◌∷◌, ◌++◌, map, arith, ltb, Bool-cases, Option-cases, ok, Result-cases, some_inj,
  length,
}
use quantum_control.Text.{Text, text, ◌==◌, eq_iff, eq_refl}
use quantum_control.Text.Trim.{trim_space}
use quantum_control.Text.Hex
use quantum_control.Text.Sort.{contains}
use quantum_control.Clock.{Time, minute}
use quantum_control.Prelude.Int.{not_positive, above}
use quantum_control.Security.Types.{
  Actor, OperationPlan, ConfirmationGrant, GrantResponse, grant_schema,
}
use quantum_control.Security.Digest.{Sha256, decode_sha256, decode-hex_digest}
use quantum_control.Security.Plan.{Entropy, random, clock_digits, PlanEncoder, new_id}
use quantum_control.Security.Plan.Laws.{length-verified}
use quantum_control.Security.Grants.Issue.{issue_cases, draft_grant-IsReviewed, draft_grant_inv}
use quantum_control.Security.Grants.Consume.{consume_cases, select_grant_inv}
use quantum_control.Security.Grants.History.{Stored, Call, issues, consumes, step, run}
use quantum_control.Security.Grants.{
  StoredGrant, GrantState, Calls, content, StoreEncoder, token_matches, check_grants, check_grant,
  mark_used, load, open_grant_store, grant_store_schema, use_grant, draft_grant,
}

-- The tests of load on one grant.
abbrev is_complete : ConfirmationGrant → Bool
is_complete g = not (
    not (g.schema == grant_schema)
    || g.id == []
    || g.plan_id == []
    || g.plan_digest == []
    || g.subject_actor_id == []
    || g.session_id == []
    || g.action == [])

abbrev grant_ids : List StoredGrant → List Text
grant_ids = map (λ s. s.grant.id)

check_grants-append :
    (seen : List Text) (gs : List StoredGrant) (s : StoredGrant) (d : List ℕ)
    → check_grants seen gs ≡ ok tt
    → is_complete s.grant ≡ true
    → decode_sha256 s.token_sha256 ≡ some d
    → contains s.grant.id seen ≡ false
    → contains s.grant.id (grant_ids gs) ≡ false
    → check_grants seen (gs ++ s ∷ []) ≡ ok tt
unfolding check_grants contains
check_grants-append seen [] s d e c t f n = ground arith
check_grants-append seen (g ∷ gs) s d e c t f n =
    elim (Option-cases (decode_sha256 g.token_sha256)) [
      | inl p ↦ absurd (ground arith)
      | inr (k, p) ↦ ground (arith, check_grants-append (g.grant.id ∷ seen) gs s d)
    ]

-- Marking a grant as used changes none of the tests.
check_grants-mark_used :
    (now : Time) (d : List ℕ) (plan : OperationPlan) (subject action : Text) (seen : List Text)
    (gs marked : List StoredGrant) (g : ConfirmationGrant)
    → mark_used now d plan subject action gs ≡ ok (marked, g)
    → check_grants seen marked ≡ check_grants seen gs
unfolding check_grants mark_used
check_grants-mark_used now d plan subject action seen [] marked g e = absurd (ground arith)
check_grants-mark_used now d plan subject action seen (s ∷ rest) marked g e =
    elim (Bool-cases (token_matches d (decode_sha256 s.token_sha256))) [
      | inl m ↦ elim (Result-cases (check_grant now plan subject action s.grant)) [
        | inl (u, c) ↦
            let shape : marked ≡ use_grant now s ∷ rest = ground arith in
            ap (check_grants seen) shape
        | inr (x, c) ↦ absurd (ground arith)
      ]
      | inr m ↦ elim (Result-cases (mark_used now d plan subject action rest)) [
        | inl ((later, k), r) ↦
            let shape : marked ≡ s ∷ later = ground arith in
            ap (check_grants seen) shape
            ∙ rw (
                check_grants-mark_used now d plan subject action (s.grant.id ∷ seen) rest later k r)
        | inr (x, r) ↦ absurd (ground arith)
      ]
    ]

complete :
    (g : ConfirmationGrant)
    → g.schema ≡ grant_schema
    → (g.id == []) ≡ false
    → (g.plan_id == []) ≡ false
    → (g.plan_digest == []) ≡ false
    → (g.subject_actor_id == []) ≡ false
    → (g.session_id == []) ≡ false
    → (g.action == []) ≡ false
    → is_complete g ≡ true
complete g s i p d a n c = rw (s, i, p, d, a, n, c, eq_refl grant_schema)

new_id-nonempty : (entropy : Entropy) → (new_id (text "grant") entropy == []) ≡ false
unfolding new_id text ◌==◌
new_id-nonempty (random bytes) = refl
new_id-nonempty (clock_digits digits) = refl

nonempty_of_length : (t : Text) → length t ≡ 64 → (t == []) ≡ false
unfolding ◌==◌
nonempty_of_length [] e = absurd (omega arith)
nonempty_of_length (x ∷ xs) e = refl

nonempty_of_trim : (t : Text) → (trim_space t == []) ≡ false → (t == []) ≡ false
unfolding ◌==◌ trim_space
nonempty_of_trim [] e = cc
nonempty_of_trim (x ∷ xs) e = refl

module _ (h : Sha256) (marshal : PlanEncoder) (encode : StoreEncoder) where
  -- The store can be read back: the file is the encoding of the grants in memory, which pass the
  -- tests of load.
  pub record IsDurable (s : Stored) : Type 0 where
    pub schema : s.store.state.schema ≡ grant_store_schema
    pub checked : check_grants [] s.store.state.grants ≡ ok tt
    pub written :
        (json : Text) × (encode s.store.state ≡ some json) × (s.disk ≡ some (json ++ 10 ∷ []))

  -- The facts that the broker's validation of a plan and a random ID give an issue: the plan names
  -- itself, its subject and its action, and the new grant's ID is new.
  abbrev pub IsFresh : Stored → Call → Type 0
  IsFresh s (issues calls now raw entropy plan approver) =
      ((plan.id == []) ≡ false)
      × ((plan.actor.id == []) ≡ false)
      × ((plan.action == []) ≡ false)
      × (contains (new_id (text "grant") entropy) (grant_ids s.store.state.grants) ≡ false)
  IsFresh s (consumes calls now token plan subject action) = Unit {0}

  abbrev pub AreFresh : Stored → List Call → Type 0
  AreFresh s [] = Unit {0}
  AreFresh s (c ∷ cs) = IsFresh s c × AreFresh (step h marshal encode s c) cs

  -- A drafted grant passes the tests of load.
  draft_grant_complete :
      (now : Time) (raw : Option (List ℕ)) (entropy : Entropy) (plan : OperationPlan)
      (approver : Actor) (s : Stored) (calls : Calls) (stored : StoredGrant)
      (response : GrantResponse)
      → IsFresh s (issues calls now raw entropy plan approver)
      → draft_grant h marshal now raw entropy plan approver s.store ≡ ok (stored, response)
      → (is_complete stored.grant ≡ true)
        × (decode_sha256 stored.token_sha256 ≡ some (h.sum response.token))
        × (contains stored.grant.id (grant_ids s.store.state.grants) ≡ false)
  draft_grant_complete now raw entropy plan approver s calls stored response fresh p =
      let (bytes, _, t, g, d, _, i, b) =
        draft_grant_inv h marshal now raw entropy plan approver s.store stored response p in
      let reviewed =
        draft_grant-IsReviewed h marshal now raw entropy plan approver s.store stored response p in
      (
        rw g (
            complete response.grant b.schema (rw i (new_id-nonempty entropy)) (rw b.plan_id fresh.0)
              (rw b.plan_digest
                (nonempty_of_length plan.digest (length-verified h marshal plan reviewed.digest)))
              (rw b.subject fresh.1)
              (rw b.session (nonempty_of_trim plan.session_id reviewed.session))
              (rw b.action fresh.2)),
        rw (d, t) (decode-hex_digest h (Hex.encode bytes)),
        rw (g, i) fresh.3,
      )

  pub step-IsDurable :
      (s : Stored) (c : Call) → IsFresh s c → IsDurable s → IsDurable (step h marshal encode s c)
  unfolding step contains
  step-IsDurable s (issues calls now raw entropy plan approver) fresh v =
      elim (issue_cases h marshal encode calls now raw entropy plan approver s.store s.disk) [
        | inl (stored, response, json, p, q, r) ↦
            let (c, d, f) =
              draft_grant_complete now raw entropy plan approver s calls stored response fresh p in
            rw r (record {
              schema = v.schema;
              checked =
                  check_grants-append [] s.store.state.grants stored (h.sum response.token)
                    v.checked c d refl f;
              written = (json, q, refl);
            })
        | inr (e, r) ↦ rw r v
      ]
  step-IsDurable s (consumes calls now token plan subject action) fresh v =
      elim (consume_cases h marshal encode calls now token plan subject action s.store s.disk) [
        | inl (list, answer, json, p, q, r) ↦
            let (m, _) =
              select_grant_inv h marshal now token plan subject action s.store list answer p in
            rw r (record {
              schema = v.schema;
              checked =
                  check_grants-mark_used now (h.sum token) plan subject action []
                    s.store.state.grants list answer m
                  ∙ v.checked;
              written = (json, q, refl);
            })
        | inr (e, r) ↦ rw r v
      ]

  pub run-IsDurable :
      (s : Stored) (cs : List Call)
      → AreFresh s cs
      → IsDurable s
      → IsDurable (run h marshal encode s cs)
  unfolding run
  run-IsDurable s [] fresh v = v
  run-IsDurable s (c ∷ cs) fresh v =
      run-IsDurable (step h marshal encode s c) cs fresh.1 (step-IsDurable s c fresh.0 v)

  -- No call changes where the store is or how long its grants last.
  abbrev SameSettings : Stored → Stored → Type 0
  SameSettings s t = (t.store.path ≡ s.store.path) × (t.store.ttl ≡ s.store.ttl)

  step-SameSettings : (s : Stored) (c : Call) → SameSettings s (step h marshal encode s c)
  unfolding step
  step-SameSettings s (issues calls now raw entropy plan approver) =
      elim (issue_cases h marshal encode calls now raw entropy plan approver s.store s.disk) [
        | inl (stored, response, json, p, q, r) ↦ rw r (refl, refl)
        | inr (e, r) ↦ rw r (refl, refl)
      ]
  step-SameSettings s (consumes calls now token plan subject action) =
      elim (consume_cases h marshal encode calls now token plan subject action s.store s.disk) [
        | inl (list, answer, json, p, q, r) ↦ rw r (refl, refl)
        | inr (e, r) ↦ rw r (refl, refl)
      ]

  run-SameSettings : (s : Stored) (cs : List Call) → SameSettings s (run h marshal encode s cs)
  unfolding run
  run-SameSettings s [] = (refl, refl)
  run-SameSettings s (c ∷ cs) =
      let one = step-SameSettings s c in
      let more = run-SameSettings (step h marshal encode s c) cs in (more.0 ∙ one.0, more.1 ∙ one.1)

  -- The decoder gives these grants back for their encoding, as encoding/json does for grants whose
  -- texts are valid UTF-8.
  abbrev pub IsReadBack : (Text → Option GrantState) → GrantState → Type 0
  IsReadBack decode state =
      (json : Text) → encode state ≡ some json → decode (json ++ 10 ∷ []) ≡ some state

  -- A durable store is read back from its file.
  open_durable :
      (decode : Text → Option GrantState) (s : Stored) (bytes : Text)
      → IsReadBack decode s.store.state
      → IsDurable s
      → (trim_space s.store.path == []) ≡ false
      → (not_positive s.store.ttl || above s.store.ttl (15 * minute)) ≡ false
      → s.disk ≡ some bytes
      → length bytes ≤ 8 * 1048576
      → open_grant_store decode s.store.path s.store.ttl (content bytes) ≡ ok s.store
  unfolding open_grant_store load
  open_durable decode s bytes inverse v p t e n =
      let (json, j, w) = v.written in
      let same : bytes ≡ json ++ 10 ∷ [] = some_inj (sym e ∙ w) in
      let small : ltb (8 * 1048576) (length bytes) ≡ false = ground arith in
      let decoded : decode bytes ≡ some s.store.state = ap decode same ∙ inverse json j in
      let schema : (s.store.state.schema == grant_store_schema) ≡ true = (eq_iff _ _).1 v.schema in
      ground (arith, small, decoded, schema, v.checked)

  -- Restarting the broker forgets nothing. Let the file hold the store's grants, let any issues and
  -- consumptions follow, failed saves included, let the file stay within the 8 MiB that load reads,
  -- and let the decoder give the grants in memory back for their encoding. Then a store opened from the file has the path, the TTL and
  -- the grants that were in memory, and so the same unused and used grants.
  pub open-run :
      (decode : Text → Option GrantState) (s : Stored) (cs : List Call) (bytes : Text)
      → IsReadBack decode (run h marshal encode s cs).store.state
      → IsDurable s
      → (trim_space s.store.path == []) ≡ false
      → (not_positive s.store.ttl || above s.store.ttl (15 * minute)) ≡ false
      → AreFresh s cs
      → (run h marshal encode s cs).disk ≡ some bytes
      → length bytes ≤ 8 * 1048576
      → open_grant_store decode s.store.path s.store.ttl (content bytes)
        ≡ ok (run h marshal encode s cs).store
  open-run decode s cs bytes inverse v p t fresh e n =
      let same = run-SameSettings s cs in
      let later = run h marshal encode s cs in
      ap₂ (λ path ttl. open_grant_store decode path ttl (content bytes)) (sym same.0) (sym same.1)
      ∙ open_durable decode later bytes inverse (run-IsDurable s cs fresh v) (rw same.0 p)
          (rw same.1 t) e n
