-- ===== src/Security/Audit/Append.antt =====
-- AuditStore.Append against loadAndVerify.
use quantum_control.Prelude.{
  ℕ, ◌+◌, ◌%◌, ◌^◌, ◌≤◌, ◌<◌, ◌≡◌, refl, sym, ap, subst, ◌∙◌, inl, inr, true, false, ◌||◌, Option,
  none, some, List, [], ◌∷◌, ◌++◌, arith, leb, eqb, eqb-false, Option-cases, ok, err, ◌>>=◌, ◌>>◌,
  Result-cases, ok-injective, some_inj, length,
}
use quantum_control.Text.{Text, ◌==◌}
use quantum_control.Text.Trim.{trim_space}
use quantum_control.Clock.{Time}
use quantum_control.Text.Case.{equal_fold_refl}
use quantum_control.Security.Types.{AuditRecord, AuditEvent}
use quantum_control.Security.Digest.{Sha256}
use quantum_control.Security.Plan.{Entropy}
use quantum_control.Security.Audit.{
  AuditStore, AuditCodec, chain_mismatch, sync_failed, Calls, complete, audit_hash, hash_agrees,
  check_record, verify_lines, open_audit_store, max_audit_line, draft_record, prepare_record,
  write_line, append, bytes_of,
}
use quantum_control.Security.Audit.Lines.{
  scan_lines, scan_lines-append, drop_cr, IsLine, IsComplete, IsComplete-append,
}
use quantum_control.Security.Audit.Chain.{IsEntry, IsEntry-check_record}
use quantum_control.Security.Grants.{ReadFile, missing, content}

-- What os.ReadFile gives of the file that Append left.
abbrev pub reading : Option Text → ReadFile
reading none = missing
reading (some bytes) = content bytes

-- The store that loadAndVerify moves to behind a record.
abbrev pub extend : AuditStore → AuditRecord → AuditStore
extend store r = record store {
  records = store.records ++ r ∷ [];
  last_hash = r.entry_hash;
  sequence = r.sequence;
}

-- What the program relies on of the JSON encoder: the line of a record is a line of text that is not
-- blank and does not end in a carriage return.
pub record IsFaithful (codec : AuditCodec) : Type 0 where
  pub one_line : (r : AuditRecord) (line : Text) → codec.encode r ≡ some line → IsLine line
  pub not_blank :
      (r : AuditRecord) (line : Text) → codec.encode r ≡ some line → (trim_space line == []) ≡ false
  pub no_cr : (r : AuditRecord) (line : Text) → codec.encode r ≡ some line → drop_cr line ≡ line

-- The decoder gives this record back for its line, as encoding/json does for a record whose texts
-- are valid UTF-8 and whose parameters are in the order of their names.
abbrev pub IsReadBack : AuditCodec → AuditRecord → Type 0
IsReadBack codec r = (line : Text) → codec.encode r ≡ some line → codec.decode line ≡ some r

-- A missing file, or one of whole lines.
abbrev pub IsWhole : Option Text → Type 0
IsWhole file = IsComplete (bytes_of file)

-- A sequence number is not the one after itself.
not_next :
    (a b s : ℕ) → a ≡ (s + 1) % 2 ^ 64 → b ≡ (s + 1) % 2 ^ 64 → eqb b ((a + 1) % 2 ^ 64) ≡ false
not_next a b s p q = eqb-false b ((a + 1) % 2 ^ 64) (omega arith)

module _ (h : Sha256) (codec : AuditCodec) where
  hashed_agrees :
      (draft : AuditRecord) (d : Text)
      → audit_hash h codec draft ≡ some d
      → hash_agrees h codec (audit_hash h codec (record draft { entry_hash = d })) d ≡ true
  unfolding audit_hash
  hashed_agrees draft d e = rw e (equal_fold_refl d)

  pub prepared_shape :
      (now : Time) (entropy : Entropy) (event : AuditEvent) (store : AuditStore) (r : AuditRecord)
      (line : Text)
      → prepare_record h codec now entropy event store ≡ ok (r, line)
      → let draft = draft_record now entropy event store in
        (d : Text) × (audit_hash h codec draft ≡ some d)
        × (r ≡ record draft { entry_hash = d })
        × (codec.encode r ≡ some line)
        × (length line ≤ max_audit_line)
        × ((draft.event == [] || draft.actor.id == [] || draft.status == []) ≡ false)
  unfolding prepare_record
  prepared_shape now entropy event store r line e =
      let draft = draft_record now entropy event store in
      elim (Option-cases (audit_hash h codec draft)) [
        | inl p ↦ absurd (ground arith)
        | inr (d, p) ↦ elim (Option-cases (codec.encode (record draft { entry_hash = d }))) [
          | inl q ↦ absurd (ground arith)
          | inr (l, q) ↦ (d, p, ground arith, ground arith, ground arith, ground arith)
        ]
      ]

  -- The record that Append prepares follows the store's last one.
  prepared-IsEntry :
      (now : Time) (entropy : Entropy) (event : AuditEvent) (store : AuditStore) (r : AuditRecord)
      (line : Text)
      → prepare_record h codec now entropy event store ≡ ok (r, line)
      → IsEntry h codec store.sequence store.last_hash r
  unfolding draft_record
  prepared-IsEntry now entropy event store r line e =
      let (d, p, shape, _, _, fields) = prepared_shape now entropy event store r line e in
      subst (IsEntry h codec store.sequence store.last_hash) (sym shape) (record {
        schema = refl;
        next = refl;
        link = refl;
        hash = hashed_agrees (draft_record now entropy event store) d p;
        fields = ground arith;
      })

  pub append_inv :
      (calls : Calls) (now : Time) (entropy : Entropy) (event : AuditEvent)
      (store store' : AuditStore) (file file' : Option Text) (r : AuditRecord)
      → append h codec calls now entropy event store file ≡ (ok r, store', file')
      → (line : Text) × (prepare_record h codec now entropy event store ≡ ok (r, line))
        × (store' ≡ extend store r)
        × (file' ≡ some (bytes_of file ++ (line ++ 10 ∷ [])))
  unfolding append write_line
  append_inv calls now entropy event store store' file file' r e =
      elim (Result-cases (prepare_record h codec now entropy event store)) [
        | inr (x, p) ↦ absurd (ground arith)
        | inl ((k, line), p) ↦ (line, ground arith, ground arith, ground arith)
      ]

  verify_lines-append :
      (ls : List Text) (l : Text) (store store' : AuditStore)
      → verify_lines h codec ls store ≡ ok store'
      → verify_lines h codec (ls ++ l ∷ []) store ≡ verify_lines h codec (l ∷ []) store'
  unfolding verify_lines
  verify_lines-append [] l store store' e = ap (verify_lines h codec (l ∷ [])) (ok-injective e)
  verify_lines-append (raw ∷ ls) l store store' e =
      elim (Option-cases (codec.decode (drop_cr raw))) [
        | inl p ↦ absurd (ground arith)
        | inr (r, p) ↦ elim (Result-cases (check_record h codec store.sequence store.last_hash r)) [
          | inr (x, c) ↦ absurd (ground arith)
          | inl (u, c) ↦ ground (arith, verify_lines-append ls l (extend store r) store')
        ]
      ]

  -- One line that was encoded from a record is checked and added.
  verify_one :
      (store : AuditStore) (r : AuditRecord) (line : Text)
      → IsFaithful codec
      → IsReadBack codec r
      → codec.encode r ≡ some line
      → length line < max_audit_line
      → verify_lines h codec (line ∷ []) store
        ≡ (check_record h codec store.sequence store.last_hash r >> ok (extend store r))
  unfolding verify_lines
  verify_one store r line f back e n =
      let long : leb max_audit_line (length line) ≡ false = ground arith in
      rw (f.no_cr r line e, long, f.not_blank r line e, back line e, ◌>>=◌) refl

  -- A missing file is opened like an empty one.
  open_bytes :
      (path : Text) (file : Option Text)
      → open_audit_store h codec path (reading file)
        ≡ open_audit_store h codec path (content (bytes_of file))
  unfolding open_audit_store scan_lines verify_lines
  open_bytes path none = refl
  open_bytes path (some bytes) = refl

  verified :
      (path bytes : Text) (store : AuditStore)
      → open_audit_store h codec path (content bytes) ≡ ok store
      → verify_lines h codec
          (scan_lines bytes)
          (record { path = path; records = []; last_hash = []; sequence = 0 })
        ≡ ok store
  unfolding open_audit_store
  verified path bytes store e = ground arith

  open_verified :
      (path bytes more : Text) (store : AuditStore)
      → open_audit_store h codec path (content bytes) ≡ ok store
      → open_audit_store h codec path (content more)
        ≡ verify_lines h codec
            (scan_lines more)
            (record { path = path; records = []; last_hash = []; sequence = 0 })
  unfolding open_audit_store
  open_verified path bytes more store e =
      let named : (trim_space path == []) ≡ false = ground arith in rw named refl

  -- A record whose number is not the next one is refused for the chain.
  check_record_mismatch :
      (s : ℕ) (p : Text) (r : AuditRecord)
      → eqb r.sequence ((s + 1) % 2 ^ 64) ≡ false
      → check_record h codec s p r ≡ err chain_mismatch
  unfolding check_record
  check_record_mismatch s p r e = ground arith

  append_unsynced :
      (calls : Calls) (now : Time) (entropy : Entropy) (event : AuditEvent) (store : AuditStore)
      (file : Option Text) (lost : AuditRecord) (line : Text)
      → prepare_record h codec now entropy event store ≡ ok (lost, line)
      → calls.make_directory ≡ true
      → calls.open_file ≡ true
      → calls.write ≡ complete
      → calls.sync ≡ false
      → append h codec calls now entropy event store file
        ≡ (err sync_failed, store, some (bytes_of file ++ (line ++ 10 ∷ [])))
  unfolding append write_line
  append_unsynced calls now entropy event store file lost line p d q c u =
      rw (p, d, q, c, u, append, write_line) refl

  module _ (f : IsFaithful codec) where
    -- Opening a file of whole lines to which one encoded record was added.
    open_added :
        (path : Text) (store : AuditStore) (file : Option Text) (r : AuditRecord) (line : Text)
        → IsWhole file
        → open_audit_store h codec path (reading file) ≡ ok store
        → IsReadBack codec r
        → codec.encode r ≡ some line
        → length line < max_audit_line
        → open_audit_store h codec path (content (bytes_of file ++ (line ++ 10 ∷ [])))
          ≡ (check_record h codec store.sequence store.last_hash r >> ok (extend store r))
    open_added path store file r line w o back e n =
        let opened = sym (open_bytes path file) ∙ o in
        open_verified path (bytes_of file) (bytes_of file ++ (line ++ 10 ∷ [])) store opened
        ∙ ap
            (λ ls.
              verify_lines h codec ls
                (record { path = path; records = []; last_hash = []; sequence = 0 }))
            (scan_lines-append (bytes_of file) line w (f.one_line r line e))
        ∙ verify_lines-append (scan_lines (bytes_of file)) line _ store
            (verified path (bytes_of file) store opened)
        ∙ verify_one store r line f back e n

    -- What Append keeps in memory is what a new process reads. Where the file opens to the store, a
    -- successful Append leaves a file of whole lines that opens to the new store, if the line of the
    -- record decodes to it, and is shorter than the limit (one of exactly the limit is written, and
    -- not read back).
    pub open-append :
        (calls : Calls) (now : Time) (entropy : Entropy) (event : AuditEvent) (path : Text)
        (store store' : AuditStore) (file file' : Option Text) (r : AuditRecord)
        → IsWhole file
        → open_audit_store h codec path (reading file) ≡ ok store
        → append h codec calls now entropy event store file ≡ (ok r, store', file')
        → IsReadBack codec r
        → ((line : Text) → codec.encode r ≡ some line → length line < max_audit_line)
        → (open_audit_store h codec path (reading file') ≡ ok store') × IsWhole file'
    open-append calls now entropy event path store store' file file' r w o e back short =
        let (line, p, s, g) = append_inv calls now entropy event store store' file file' r e in
        let (_, _, _, encoded, _, _) = prepared_shape now entropy event store r line p in
        rw (g, s)
          (
            open_added path store file r line w o back encoded (short line encoded)
                ∙ ap (λ u. u >> ok (extend store r))
                    (IsEntry-check_record h codec store.sequence store.last_hash r
                      (prepared-IsEntry now entropy event store r line p)),
            IsComplete-append (bytes_of file) line,
          )

    -- A record that is written and not synced stays in the file while the store forgets it. The next
    -- Append then repeats its sequence number, and the log no longer opens: whatever the file and
    -- the two events, a failed sync followed by a successful Append gives a file that is refused
    -- for its chain, where the lines of the two records decode to them and are shorter than the
    -- limit.
    pub open-append_unsynced :
        (calls calls' : Calls) (now now' : Time) (entropy entropy' : Entropy)
        (event event' : AuditEvent) (path : Text) (store store' : AuditStore)
        (file file' : Option Text) (lost r : AuditRecord) (line line' : Text)
        → IsWhole file
        → open_audit_store h codec path (reading file) ≡ ok store
        → prepare_record h codec now entropy event store ≡ ok (lost, line)
        → length line < max_audit_line
        → calls.make_directory ≡ true
        → calls.open_file ≡ true
        → calls.write ≡ complete
        → calls.sync ≡ false
        → let first = append h codec calls now entropy event store file in
          append h codec calls' now' entropy' event' first.1 first.2 ≡ (ok r, store', file')
          → codec.encode r ≡ some line'
          → length line' < max_audit_line
          → IsReadBack codec lost
          → IsReadBack codec r
          → (first.0 ≡ err sync_failed)
            × (open_audit_store h codec path (reading file') ≡ err chain_mismatch)
    open-append_unsynced calls calls' now now' entropy entropy' event event' path store store' file
          file' lost r line line' w o p n d q c u e encoded n' back back' =
        let first = append_unsynced calls now entropy event store file lost line p d q c u in
        let left = bytes_of file ++ (line ++ 10 ∷ []) in
        let (_, _, _, l, _, _) = prepared_shape now entropy event store lost line p in
        let entry = prepared-IsEntry now entropy event store lost line p in
        let opened : open_audit_store h codec path (content left) ≡ ok (extend store lost) =
          open_added path store file lost line w o back l n
          ∙ ap (λ u. u >> ok (extend store lost))
              (IsEntry-check_record h codec store.sequence store.last_hash lost entry) in
        let second : append h codec calls' now' entropy' event' store (some left)
            ≡ (ok r, store', file') =
          ap (λ x. append h codec calls' now' entropy' event' x.1 x.2) (sym first) ∙ e in
        let (k, p', _, g) =
          append_inv calls' now' entropy' event' store store' (some left) file' r second in
        let (_, _, _, l', _, _) = prepared_shape now' entropy' event' store r k p' in
        let again = prepared-IsEntry now' entropy' event' store r k p' in
        let same : k ≡ line' = some_inj (sym l' ∙ encoded) in
        let repeated : eqb r.sequence ((lost.sequence + 1) % 2 ^ 64) ≡ false =
          not_next lost.sequence r.sequence store.sequence entry.next again.next in
        (
          ap (λ x. x.0) first,
          ap (λ x. open_audit_store h codec path (reading x)) g
              ∙ open_added path (extend store lost) (some left) r k
                  (IsComplete-append (bytes_of file) line) opened back' l'
                  (subst (λ t. length t < max_audit_line) (sym same) n')
              ∙ ap (λ u. u >> ok (extend (extend store lost) r))
                  (check_record_mismatch lost.sequence lost.entry_hash r repeated),
        )
