-- ===== src/Checks/Audit.antt =====
-- internal/security/audit.go at concrete inputs.
use quantum_control.Prelude.{
  ◌+◌, ◌≤◌, ◌<◌, ◌≡◌, refl, sym, ap, subst, ◌∙◌, ◌⊎◌, inl, inr, true, false, Option, none, some, [],
  ◌∷◌, ◌++◌, map, arith, if◌then◌else◌, ok, err, some_inj, length,
}
use quantum_control.Text.{Text, text, ◌==◌}
use quantum_control.Text.Trim.{trim_space}
use native.Mathlib.Decide.{ℕ_discrete}
use quantum_control.Text.Hex
use quantum_control.Text.Case.{to_lower}
use quantum_control.Prelude.Int.{pos}
use quantum_control.Clock.{minute}
use quantum_control.Security.Types.{AuditRecord, AuditEvent}
use quantum_control.Security.Plan.{random, new_id}
use quantum_control.Security.Redact.{
  redact_parameters, redact_value, secret_key, sanitize_label, sanitize_digest, has_control,
}
use quantum_control.Security.Grants.{missing}
use quantum_control.Security.Audit.Lines.{drop_cr, IsLine}
use quantum_control.Security.Audit.{
  AuditStore, AuditCodec, CanonicalAudit, canonical_audit, chain_mismatch, sync_failed, Calls,
  complete, max_audit_line, draft_record, audit_hash, prepare_record, write_line, append,
  open_audit_store, query, effective_limit,
}
use quantum_control.Security.Audit.Chain.{same_head_same_history}
use quantum_control.Security.Audit.Append.{
  IsFaithful, IsReadBack, IsWhole, reading, open-append, open-append_unsynced, extend,
}
use quantum_control.Security.Audit.Query.{matching, last_items, query_last}
use quantum_control.Checks.Data.{sha, approver, start, entropy}

AuditRecord-discrete : Discrete AuditRecord
AuditRecord-discrete = hlevel ℕ_discrete

abbrev event : Text → AuditEvent
event status = record {
  event = text "grant.issue";
  actor = approver;
  request_id = text "r1";
  session_id = text "s1";
  plan_id = text "plan-0102";
  plan_digest = [];
  action = text "service.restart";
  risk = text "high";
  status = status;
  rollback_status = [];
  parameters = (text "token", text "x") ∷ [];
  error_code = [];
}

abbrev canonical : CanonicalAudit → Option Text
canonical c = some (c.id ++ (c.actor_id ++ (c.status ++ c.previous_hash)))

abbrev empty : AuditStore
empty = record { path = text "/var/a"; records = []; last_hash = []; sequence = 0 }

abbrev hashed : AuditRecord → AuditRecord
hashed r = record r {
  entry_hash = Hex.encode (sha.sum (r.id ++ (r.actor.id ++ (r.status ++ r.previous_hash))));
}

abbrev first : AuditRecord
first = hashed (draft_record start entropy (event (text "ok")) empty)

abbrev second : AuditRecord
second = hashed (draft_record (start + minute) (random (3 ∷ [])) (event (text "denied")) empty)

encode : AuditRecord → Option Text
unfolding AuditRecord-discrete ℕ_discrete
encode r = elim (AuditRecord-discrete r first) [
  | yes p ↦ some (text "a")
  | no n ↦ elim (AuditRecord-discrete r second) [ yes q ↦ some (text "b") | no m ↦ none ]
]

decode : Text → Option AuditRecord
decode t = if t == text "a" then some first else if t == text "b" then some second else none

abbrev codec : AuditCodec
codec = record { canonical = canonical; encode = encode; decode = decode }

-- The lines of the codec and what they stand for.
encode_cases :
    (r : AuditRecord) (line : Text)
    → encode r ≡ some line
    → ((line ≡ text "a") × (r ≡ first)) ⊎ ((line ≡ text "b") × (r ≡ second))
unfolding encode
encode_cases r line e =
    elim (AuditRecord-discrete r first)
        as (λ d.
          elim d [
            | yes p ↦ some (text "a")
            | no n ↦ elim (AuditRecord-discrete r second) [ yes q ↦ some (text "b") | no m ↦ none ]
          ]
            ≡ some line
          → ((line ≡ text "a") × (r ≡ first)) ⊎ ((line ≡ text "b") × (r ≡ second))) [
            | yes p ↦ λ k. inl (sym (some_inj k), p)
            | no n ↦
                elim (AuditRecord-discrete r second)
                  as (λ d.
                    elim d [ yes q ↦ some (text "b") | no m ↦ none ] ≡ some line
                    → ((line ≡ text "a") × (r ≡ first)) ⊎ ((line ≡ text "b") × (r ≡ second))) [
                      | yes q ↦ λ k. inr (sym (some_inj k), q)
                      | no m ↦ λ k. absurd (ground arith)
                    ]
          ]
      e

codec-IsFaithful : IsFaithful codec
unfolding text ◌==◌ trim_space drop_cr decode
codec-IsFaithful = record {
  one_line = λ r line e. elim (encode_cases r line e) [
    | inl (p, q) ↦ subst IsLine (sym p) (refl, tt)
    | inr (p, q) ↦ subst IsLine (sym p) (refl, tt)
  ];
  not_blank = λ r line e. elim (encode_cases r line e) [
    | inl (p, q) ↦ ap (λ t. trim_space t == []) p
    | inr (p, q) ↦ ap (λ t. trim_space t == []) p
  ];
  no_cr = λ r line e. elim (encode_cases r line e) [
    | inl (p, q) ↦ ap drop_cr p ∙ sym p
    | inr (p, q) ↦ ap drop_cr p ∙ sym p
  ];
}

codec_back : (r : AuditRecord) → IsReadBack codec r
unfolding decode text ◌==◌
codec_back r line e = elim (encode_cases r line e) [
  | inl (p, q) ↦ ap decode p ∙ ap some (sym q)
  | inr (p, q) ↦ ap decode p ∙ ap some (sym q)
]

short : (r : AuditRecord) (line : Text) → encode r ≡ some line → length line < max_audit_line
unfolding text
short r line e = elim (encode_cases r line e) [
  | inl (p, q) ↦ subst (λ t. length t < max_audit_line) (sym p) (omega arith)
  | inr (p, q) ↦ subst (λ t. length t < max_audit_line) (sym p) (omega arith)
]

abbrev calls : Calls
calls = record {
  make_directory = true;
  open_file = true;
  write = complete;
  sync = true;
  close = true;
}

abbrev unsynced : Calls
unsynced = record calls { sync = false }

abbrev file : Text
file = text "a" ++ 10 ∷ []

opened_empty : open_audit_store sha codec (text "/var/a") missing ≡ ok empty
unfolding open_audit_store trim_space text ◌==◌
opened_empty = refl

appended :
    append sha codec calls start entropy (event (text "ok")) empty none
    ≡ (ok first, extend empty first, some file)
unfolding append prepare_record write_line audit_hash draft_record encode text ◌==◌ sanitize_label
    sanitize_digest trim_space has_control redact_parameters new_id Hex.encode to_lower redact_value
    secret_key
appended = refl

open-append_example :
    (open_audit_store sha codec (text "/var/a") (reading (some file)) ≡ ok (extend empty first))
    × IsWhole (some file)
open-append_example =
    open-append sha codec codec-IsFaithful calls start entropy (event (text "ok")) (text "/var/a")
      empty (extend empty first) none (some file) first (inl refl) opened_empty appended
      (codec_back first) (short first)

prepared : prepare_record sha codec start entropy (event (text "ok")) empty ≡ ok (first, text "a")
unfolding prepare_record audit_hash draft_record encode text ◌==◌ sanitize_label sanitize_digest
    trim_space has_control redact_parameters new_id Hex.encode to_lower redact_value secret_key
prepared = refl

repeated :
    let one = append sha codec unsynced start entropy (event (text "ok")) empty none in
    append sha codec calls (start + minute) (random (3 ∷ [])) (event (text "denied")) one.1 one.2
    ≡ (ok second, extend empty second, some (file ++ (text "b" ++ 10 ∷ [])))
unfolding append prepare_record write_line audit_hash draft_record encode text ◌==◌ sanitize_label
    sanitize_digest trim_space has_control redact_parameters new_id Hex.encode to_lower redact_value
    secret_key
repeated = refl

encode_first : encode first ≡ some (text "a")
unfolding encode draft_record text ◌==◌ sanitize_label sanitize_digest trim_space has_control
    redact_parameters new_id Hex.encode to_lower redact_value secret_key
encode_first = refl

encode_second : encode second ≡ some (text "b")
unfolding encode draft_record text ◌==◌ sanitize_label sanitize_digest trim_space has_control
    redact_parameters new_id Hex.encode to_lower redact_value secret_key
encode_second = refl

open-append_unsynced_example :
    ((append sha codec unsynced start entropy (event (text "ok")) empty none).0 ≡ err sync_failed)
    × (open_audit_store sha codec (text "/var/a") (reading (some (file ++ (text "b" ++ 10 ∷ []))))
        ≡ err chain_mismatch)
open-append_unsynced_example =
    open-append_unsynced sha codec codec-IsFaithful unsynced calls start (start + minute) entropy
      (random (3 ∷ [])) (event (text "ok")) (event (text "denied")) (text "/var/a") empty
      (extend empty second) none (some (file ++ (text "b" ++ 10 ∷ []))) first second (text "a")
      (text "b") (inl refl) opened_empty prepared (short first (text "a") encode_first) refl refl
      refl refl repeated encode_second (short second (text "b") encode_second) (codec_back first)
      (codec_back second)

same_head_same_history_example :
    map (λ r. canonical_audit r) (extend empty first).records
    ≡ map (λ r. canonical_audit r) (extend empty first).records
same_head_same_history_example =
    same_head_same_history sha codec (text "/var/a") (text "/var/a") file file (extend empty first)
      (extend empty first) open-append_example.0 open-append_example.0 refl refl
      (((λ e. refl), tt), tt)

query_last_example :
    (query (pos 0) (text "human:ada ") [] (extend empty first)
      ≡ last_items
          (effective_limit (pos 0))
          (matching (trim_space (text "human:ada ")) (trim_space []) (first ∷ [])))
    × ((1 ≤ effective_limit (pos 0)) × (effective_limit (pos 0) ≤ 500))
query_last_example = query_last (pos 0) (text "human:ada ") [] (extend empty first)
