-- ===== src/Checks/Grants.antt =====
-- internal/security/grants.go at concrete inputs.
use quantum_control.Prelude.{
  ◌+◌, ◌*◌, ◌<◌, ◌≡◌, refl, ◌≢◌, true, false, none, some, List, [], ◌∷◌, ◌++◌, Result, ok, err,
  length, All,
}
use quantum_control.Text.{text, ◌==◌}
use quantum_control.Text.Trim.{trim_space}
use quantum_control.Text.Hex
use quantum_control.Text.Case.{to_lower, equal_fold}
use quantum_control.Text.Order.{text_lt}
use quantum_control.Text.Sort.{contains, sort_by}
use quantum_control.Clock.{Time, minute, is_zero, zero_time}
use quantum_control.Prelude.Int.{pos}
use quantum_control.Security.Types.{ConfirmationGrant, GrantResponse}
use quantum_control.Security.Actor.{has_permission}
use quantum_control.Security.Digest.{decode_sha256, hex_digest}
use quantum_control.Security.Plan.{
  verify_plan_digest, plan_digest, draft_plan, canonical_plan, build, new_id,
}
use quantum_control.Security.Grants.{
  StoredGrant, GrantStore, GrantError, Disk, Calls, StoreEncoder, empty_state, issue, consume,
  draft_grant, select_grant, mark_used, check_grant, save, prepare_file, already_exists,
}
use quantum_control.Security.Grants.Save.{with_grants}
use quantum_control.Security.Grants.Issue.{IsReviewed, IsBound, issue_sound}
use quantum_control.Security.Grants.Consume.{
  first_match, used, Permits, IsExecutable, consume_sound,
}
use quantum_control.Security.Grants.Binding.{consumed_was_confirmed}
use quantum_control.Security.Grants.History.{
  Call, issues, consumes, IsDated, run, step, consume_once,
}
use quantum_control.Checks.Data.{sha, service_actor, approver, start, entropy, marshal}
use quantum_control.Checks.Plans.{built}

abbrev pub calls : Calls
calls = record {
  make_directory = true;
  create_temp = true;
  change_mode = true;
  write = true;
  sync = true;
  close = true;
  rename = true;
}

abbrev pub encode : StoreEncoder
encode s = some (length s.grants ∷ [])

abbrev pub store : GrantStore
store = record { path = text "/var/g"; ttl = pos (5 * minute); state = empty_state }

abbrev pub disk : Disk
disk = none

abbrev pub issuing : Result GrantError (StoredGrant × GrantResponse)
issuing = draft_grant sha marshal start (some (7 ∷ 9 ∷ [])) entropy built approver store

abbrev no_grant : ConfirmationGrant
no_grant = record {
  schema = [];
  id = [];
  plan_id = [];
  plan_digest = [];
  subject_actor_id = [];
  session_id = [];
  approver = approver;
  action = [];
  issued_at = 0;
  expires_at = 0;
  used_at = 0;
}

abbrev pub answer : {A : Type 0} → A → Result GrantError A → A
answer other (ok a) = a
answer other (err e) = other

abbrev pub drafted : StoredGrant × GrantResponse
drafted =
    answer (record { grant = no_grant; token_sha256 = [] }, record { grant = no_grant; token = [] })
      issuing

abbrev pub response : GrantResponse
response = drafted.1

abbrev pub confirmed : GrantStore
confirmed = with_grants store (drafted.0 ∷ [])

issued_eq :
    issue sha marshal encode calls start (some (7 ∷ 9 ∷ [])) entropy built approver store disk
    ≡ (ok response, confirmed, some (1 ∷ 10 ∷ []))
unfolding issue draft_grant verify_plan_digest build plan_digest draft_plan trim_space text ◌==◌
    equal_fold Hex.encode sort_by text_lt new_id has_permission contains already_exists save
    prepare_file
issued_eq = refl

issue_sound_example :
    IsReviewed sha marshal start built approver
    × IsBound start store.ttl built approver response.grant
    × (already_exists built store.state.grants ≡ false)
    × (confirmed
        ≡ with_grants store (
            store.state.grants
            ++ record { grant = response.grant; token_sha256 = hex_digest sha response.token }
              ∷ []))
issue_sound_example =
    issue_sound sha marshal encode calls start (some (7 ∷ 9 ∷ [])) entropy built approver store
      confirmed disk (some (1 ∷ 10 ∷ [])) response issued_eq

abbrev pub later : Time
later = start + minute

abbrev pub grant : ConfirmationGrant
grant = used later response.grant

abbrev pub spent : GrantStore
spent = with_grants store (record drafted.0 { grant = grant } ∷ [])

consumed_eq :
    consume sha marshal encode calls later response.token built service_actor.id built.action
      confirmed
      (some (1 ∷ 10 ∷ []))
    ≡ (ok grant, spent, some (1 ∷ 10 ∷ []))
unfolding consume select_grant mark_used check_grant draft_grant verify_plan_digest build
    plan_digest draft_plan trim_space text ◌==◌ equal_fold Hex.encode Hex.decode sort_by text_lt
    new_id has_permission contains already_exists save prepare_file decode_sha256 to_lower is_zero
    zero_time
consumed_eq = refl

consume_sound_example :
    (old : ConfirmationGrant) × (first_match (sha.sum response.token) confirmed.state.grants
      ≡ some old)
    × Permits later built service_actor.id built.action old
    × IsExecutable sha marshal later built
    × (grant ≡ used later old)
    × (first_match (sha.sum response.token) spent.state.grants ≡ some grant)
consume_sound_example =
    consume_sound sha marshal encode calls later response.token built service_actor.id built.action
      confirmed spent (some (1 ∷ 10 ∷ [])) (some (1 ∷ 10 ∷ [])) grant consumed_eq

-- A second issue for the plan, which is refused, and a use of a token that no grant has.
abbrev pub between : List Call
between =
    issues calls later (some (3 ∷ [])) entropy built approver
    ∷ consumes calls later (text "guess") built service_actor.id built.action
    ∷ []

pub between-IsDated : All IsDated between
unfolding is_zero zero_time
between-IsDated = (refl, (refl, tt))

pub later_dated : is_zero later ≡ false
unfolding is_zero zero_time
later_dated = refl

consume_once_example :
    let s = run sha marshal encode (record { store = spent; disk = some (1 ∷ 10 ∷ []) }) between in
    (consume sha marshal encode calls
      (later + 1)
      response.token
      built
      service_actor.id
      built.action
      s.store
      s.disk).0
    ≢ ok grant
consume_once_example =
    consume_once sha marshal encode (record { store = confirmed; disk = some (1 ∷ 10 ∷ []) }) calls
      later response.token built service_actor.id built.action spent (some (1 ∷ 10 ∷ [])) grant
      between calls (later + 1) built service_actor.id built.action grant later_dated consumed_eq
      between-IsDated

new_token : first_match (sha.sum response.token) store.state.grants ≡ none
unfolding first_match
new_token = refl

consumed_later :
    let s =
      run sha marshal encode (record { store = confirmed; disk = some (1 ∷ 10 ∷ []) }) between in
    (consume sha marshal encode calls later response.token built service_actor.id built.action
      s.store s.disk).0
    ≡ ok grant
unfolding run step issue consume select_grant mark_used check_grant draft_grant verify_plan_digest
    build plan_digest draft_plan trim_space text ◌==◌ equal_fold Hex.encode Hex.decode sort_by
    text_lt new_id has_permission contains already_exists save prepare_file decode_sha256 to_lower
    is_zero zero_time
consumed_later = refl

consumed_was_confirmed_example :
    (canonical_plan built ≡ canonical_plan built)
    × (service_actor.id ≡ built.actor.id)
    × (built.action ≡ built.action)
    × (later < built.expires_at)
    × (later < response.grant.expires_at)
    × IsReviewed sha marshal start built approver
consumed_was_confirmed_example =
    consumed_was_confirmed sha marshal encode (record { store = store; disk = disk }) calls start
      (some (7 ∷ 9 ∷ [])) entropy built approver confirmed (some (1 ∷ 10 ∷ [])) response between
      calls later built service_actor.id built.action grant new_token issued_eq between-IsDated
      consumed_later (λ e. refl)
