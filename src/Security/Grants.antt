-- ===== src/Security/Grants.antt =====
-- internal/security/grants.go: the store of confirmation grants. The mutex makes each operation one
-- step. The clock, the random bytes, the outcomes of the calls to the file system and the JSON
-- codec are arguments.
pub mod Save
pub mod Issue
pub mod Consume
pub mod Binding
pub mod History
pub mod Restart
use quantum_control.Prelude.{
  ℕ, zero, suc, ◌+◌, ◌-◌, ◌*◌, ◌≤◌, ◌<◌, min, ◌≡◌, refl, sym, ap, ap₂, subst, ◌∙◌, ◌≢◌, ◌↔◌, ◌⊎◌,
  inl, inr, Bool, true, false, ◌&&◌, ◌||◌, not, Option, none, some, List, [], ◌∷◌, ◌++◌, map,
  reverse, arith, ltb, leb, eqb, eqb_iff, eqb_refl, if◌then◌else◌, Bool-cases, Option-cases,
  Bool-ext, Result, ok, err, ◌>>=◌, ◌>>◌, require, refuse, or_fail, Result-cases, ok-injective,
  length, take, All, All-append, All-map, length-append, length-take,
}
use quantum_control.Text.{Text, text, ◌==◌, eq_iff, eq_refl, eq_comm}
use quantum_control.Text.Trim.{trim_space}
use quantum_control.Text.Hex
use quantum_control.Text.Case.{equal_fold}
use quantum_control.Text.Sort.{contains}
use quantum_control.Clock.{Time, Duration, minute, zero_time, is_zero, after, add}
use quantum_control.Prelude.Int.{not_positive, above}
use quantum_control.Security.Types.{
  Actor, OperationPlan, ConfirmationGrant, GrantResponse, plan_schema, grant_schema, actor_human,
  confirm,
}
use quantum_control.Security.Actor.{has_permission}
use quantum_control.Security.Digest.{Sha256, hex_digest, decode_sha256}
use quantum_control.Security.Plan.{Entropy, PlanEncoder, new_id, verify_plan_digest}

abbrev pub grant_store_schema : Text
grant_store_schema = text "quantum.control/confirmation-store/v1alpha1"

pub record StoredGrant : Type 0 where
  pub grant : ConfirmationGrant
  pub token_sha256 : Text

pub record GrantState : Type 0 where
  pub schema : Text
  pub grants : List StoredGrant

-- The mutex and the clock apart. The file at `path` is a state of its own, below.
pub record GrantStore : Type 0 where
  pub path : Text
  pub ttl : Duration
  pub state : GrantState

-- The file of the store, `none` while there is none.
abbrev pub Disk : Type 0
Disk = Option Text

-- What os.ReadFile gives.
pub data ReadFile : Type 0 where
  missing unreadable : ReadFile
  content : Text → ReadFile

pub data GrantError : Type 0 where
  path_required invalid_ttl : GrantError
  read_failed too_large undecodable unsupported_schema : GrantError
  invalid_grant duplicate_grant invalid_token_digest : GrantError
  not_confirmable digest_mismatch plan_expired session_required : GrantError
  approver_forbidden approver_not_distinct already_granted no_randomness : GrantError
  token_required not_found already_consumed grant_expired not_bound : GrantError
  directory_failed encode_failed create_failed chmod_failed : GrantError
  write_failed sync_failed close_failed rename_failed : GrantError

-- Whether each call of persistLocked to the file system succeeds.
pub record Calls : Type 0 where
  pub make_directory : Bool
  pub create_temp : Bool
  pub change_mode : Bool
  pub write : Bool
  pub sync : Bool
  pub close : Bool
  pub rename : Bool

-- The loop of load over the stored grants, with the IDs that it has seen.
unfoldable pub check_grants : List Text → List StoredGrant → Result GrantError (Unit {0})
check_grants seen [] = ok tt
check_grants seen (stored ∷ rest) = do
  refuse
      (not (stored.grant.schema == grant_schema)
        || stored.grant.id == []
        || stored.grant.plan_id == []
        || stored.grant.plan_digest == []
        || stored.grant.subject_actor_id == []
        || stored.grant.session_id == []
        || stored.grant.action == [])
      invalid_grant
  refuse (contains stored.grant.id seen) duplicate_grant
  _ ← or_fail (decode_sha256 stored.token_sha256) invalid_token_digest
  check_grants (stored.grant.id ∷ seen) rest

abbrev pub empty_state : GrantState
empty_state = record { schema = grant_store_schema; grants = [] }

-- GrantStore.load
unfoldable pub load : (Text → Option GrantState) → ReadFile → Result GrantError GrantState
load decode missing = ok empty_state
load decode unreadable = err read_failed
load decode (content bytes) = do
  refuse (ltb (8 * 1048576) (length bytes)) too_large
  state ← or_fail (decode bytes) undecodable
  require (state.schema == grant_store_schema) unsupported_schema
  check_grants [] state.grants
  ok state

-- OpenGrantStore
unfoldable pub open_grant_store :
    (Text → Option GrantState) → Text → Duration → ReadFile → Result GrantError GrantStore
open_grant_store decode path ttl read = do
  refuse (trim_space path == []) path_required
  refuse (not_positive ttl || above ttl (15 * minute)) invalid_ttl
  state ← load decode read
  ok (record { path = path; ttl = ttl; state = state })

-- The grant that the loop of Consume returns, with the time of its use.
abbrev use_grant : Time → StoredGrant → StoredGrant
use_grant now stored = record stored { grant = record stored.grant { used_at = now } }

abbrev pub token_matches : List ℕ → Option (List ℕ) → Bool
token_matches provided none = false
token_matches provided (some expected) = provided == expected

-- The tests of Consume on the grant that the token selects.
unfoldable pub check_grant :
    Time → OperationPlan → Text → Text → ConfirmationGrant → Result GrantError (Unit {0})
check_grant now plan subject action grant = do
  require (is_zero grant.used_at) already_consumed
  require (after grant.expires_at now) grant_expired
  refuse
      (not (grant.plan_id == plan.id)
        || not (equal_fold grant.plan_digest plan.digest)
        || not (grant.subject_actor_id == subject)
        || not (grant.session_id == plan.session_id)
        || not (grant.action == action))
      not_bound

-- The loop of Consume: the first grant whose token digest matches decides.
unfoldable pub mark_used :
    Time
    → List ℕ
    → OperationPlan
    → Text
    → Text
    → List StoredGrant
    → Result GrantError (List StoredGrant × ConfirmationGrant)
mark_used now provided plan subject action [] = err not_found
mark_used now provided plan subject action (stored ∷ rest) =
    let later = mark_used now provided plan subject action rest in
    if token_matches provided (decode_sha256 stored.token_sha256)
    then (do
      check_grant now plan subject action stored.grant
      ok (use_grant now stored ∷ rest, (use_grant now stored).grant))
    else (do (marked, grant) ← later; ok (stored ∷ marked, grant))

-- json.MarshalIndent of the store; `none` is its error.
abbrev pub StoreEncoder : Type 0
StoreEncoder = GrantState → Option Text

-- persistLocked up to the rename, with the content of the file that is renamed.
unfoldable pub prepare_file : StoreEncoder → Calls → GrantState → Result GrantError Text
prepare_file encode calls state = do
  require calls.make_directory directory_failed
  bytes ← or_fail (encode state) encode_failed
  require calls.create_temp create_failed
  require calls.change_mode chmod_failed
  require calls.write write_failed
  require calls.sync sync_failed
  require calls.close close_failed
  require calls.rename rename_failed
  ok (bytes ++ 10 ∷ [])

-- The end of Issue and of Consume: the changed grants stay in memory, and the file is replaced, only
-- if the whole save succeeds. `restored` are the grants that the source puts back.
unfoldable pub save {ℓ} :
    {A : Type ℓ}
    → StoreEncoder
    → Calls
    → List StoredGrant
    → A
    → GrantStore
    → Disk
    → Result GrantError A × GrantStore × Disk
save encode calls changed answer store disk =
    let state : GrantState = record store.state { grants = changed } in
    elim (prepare_file encode calls state) [
      | ok bytes ↦ (ok answer, record store { state = state }, some bytes)
      | err e ↦ (err e, store, disk)
    ]

-- `for _, existing := range s.data.Grants`
unfoldable pub already_exists : OperationPlan → List StoredGrant → Bool
already_exists plan [] = false
already_exists plan (stored ∷ rest) =
    (stored.grant.plan_id == plan.id && equal_fold stored.grant.plan_digest plan.digest)
    || already_exists plan rest

module _ (h : Sha256) (marshal : PlanEncoder) where
  -- Issue up to the save: its guards in order, the token and the grant.
  unfoldable pub draft_grant :
      Time
      → Option (List ℕ)
      → Entropy
      → OperationPlan
      → Actor
      → GrantStore
      → Result GrantError (StoredGrant × GrantResponse)
  draft_grant now raw entropy plan approver store = do
    refuse (not (plan.schema == plan_schema) || not plan.valid || not plan.requires_confirmation)
        not_confirmable
    require (verify_plan_digest h marshal plan) digest_mismatch
    require (after plan.expires_at now) plan_expired
    refuse (trim_space plan.session_id == []) session_required
    refuse (not (approver.kind == actor_human) || not (has_permission approver confirm))
        approver_forbidden
    refuse (plan.actor.id == approver.id) approver_not_distinct
    refuse (already_exists plan store.state.grants) already_granted
    bytes ← or_fail raw no_randomness
    let token = Hex.encode bytes
    let limit = add now store.ttl
    let grant : ConfirmationGrant = record {
      schema = grant_schema;
      id = new_id (text "grant") entropy;
      plan_id = plan.id;
      plan_digest = plan.digest;
      subject_actor_id = plan.actor.id;
      session_id = plan.session_id;
      approver = approver;
      action = plan.action;
      issued_at = now;
      expires_at = if ltb plan.expires_at limit then plan.expires_at else limit;
      used_at = zero_time;
    }
    ok (
      record { grant = grant; token_sha256 = hex_digest h token },
      record { grant = grant; token = token },
    )

  -- GrantStore.Issue
  unfoldable pub issue :
      StoreEncoder
      → Calls
      → Time
      → Option (List ℕ)
      → Entropy
      → OperationPlan
      → Actor
      → GrantStore
      → Disk
      → Result GrantError GrantResponse × GrantStore × Disk
  issue encode calls now raw entropy plan approver store disk =
      elim (draft_grant now raw entropy plan approver store) [
        | err e ↦ (err e, store, disk)
        | ok (stored, response) ↦
            save encode calls (store.state.grants ++ stored ∷ []) response store disk
      ]

  -- Consume up to the save.
  unfoldable pub select_grant :
      Time
      → Text
      → OperationPlan
      → Text
      → Text
      → GrantStore
      → Result GrantError (List StoredGrant × ConfirmationGrant)
  select_grant now token plan subject action store = do
    refuse (trim_space token == []) token_required
    refuse (not (plan.schema == plan_schema) || not plan.valid || not plan.requires_confirmation)
        not_confirmable
    require (verify_plan_digest h marshal plan) digest_mismatch
    require (after plan.expires_at now) plan_expired
    mark_used now (h.sum token) plan subject action store.state.grants

  -- GrantStore.Consume
  unfoldable pub consume :
      StoreEncoder
      → Calls
      → Time
      → Text
      → OperationPlan
      → Text
      → Text
      → GrantStore
      → Disk
      → Result GrantError ConfirmationGrant × GrantStore × Disk
  consume encode calls now token plan subject action store disk =
      elim (select_grant now token plan subject action store) [
        | err e ↦ (err e, store, disk)
        | ok (marked, grant) ↦ save encode calls marked grant store disk
      ]
