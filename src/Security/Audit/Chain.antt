-- ===== src/Security/Audit/Chain.antt =====
-- The hash chain that loadAndVerify accepts.
use quantum_control.Prelude.{
  ℕ, ◌+◌, ◌%◌, ◌^◌, ◌≡◌, refl, sym, ap, ap₂, subst, ◌∙◌, inl, inr, true, false, ◌||◌, some, List,
  [], ◌∷◌, ◌++◌, map, arith, eqb_iff, Option-cases, ok, ◌>>=◌, Result-cases, ok-injective, length,
  All,
}
use quantum_control.Text.{Text, ◌==◌, eq_iff}
use mathlib.Core.List.{append-nil, append_assoc}
use quantum_control.Text.Case.{equal_fold, equal_fold_comm, equal_fold_trans, equal_fold_low, IsLow}
use quantum_control.Security.Types.{AuditRecord, audit_schema}
use quantum_control.Security.Digest.{Sha256, hex_digest, hex_digest-IsLow}
use quantum_control.Security.Audit.{
  AuditStore, AuditCodec, canonical_audit, audit_hash, hash_agrees, check_record, verify_lines,
  open_audit_store,
}
use quantum_control.Security.Audit.Lines.{scan_lines, drop_cr}
use quantum_control.Security.Grants.{content}

-- The hash at the end of a chain that begins behind the given hash.
unfoldable pub end_hash : Text → List AuditRecord → Text
end_hash p [] = p
end_hash p (r ∷ rs) = end_hash r.entry_hash rs

module _ (h : Sha256) (codec : AuditCodec) where
  -- A record that follows the given sequence number and hash.
  pub record IsEntry (sequence : ℕ) (previous : Text) (r : AuditRecord) : Type 0 where
    pub schema : r.schema ≡ audit_schema
    pub next : r.sequence ≡ (sequence + 1) % 2 ^ 64
    pub link : r.previous_hash ≡ previous
    pub hash : hash_agrees h codec (audit_hash h codec r) r.entry_hash ≡ true
    pub fields : (r.actor.id == [] || r.event == [] || r.status == []) ≡ false

  abbrev pub Linked : ℕ → Text → List AuditRecord → Type 0
  Linked s p [] = Unit {0}
  Linked s p (r ∷ rs) = IsEntry s p r × Linked r.sequence r.entry_hash rs

  check_record-IsEntry :
      (s : ℕ) (p : Text) (r : AuditRecord) (u : Unit {0})
      → check_record h codec s p r ≡ ok u
      → IsEntry s p r
  unfolding check_record
  check_record-IsEntry s p r u e = record {
    schema = (eq_iff _ _).0 (ground arith);
    next = (eqb_iff _ _).0 (ground arith);
    link = (eq_iff _ _).0 (ground arith);
    hash = ground arith;
    fields = ground arith;
  }

  pub IsEntry-check_record :
      (s : ℕ) (p : Text) (r : AuditRecord) → IsEntry s p r → check_record h codec s p r ≡ ok tt
  unfolding check_record
  IsEntry-check_record s p r v =
      rw
        (
          (eq_iff _ _).1 v.schema,
          (eqb_iff _ _).1 v.next,
          (eq_iff _ _).1 v.link,
          v.hash,
          v.fields,
          ◌>>=◌,
        )
        refl

  -- What the loop adds to the store is a chain that begins where the store ended.
  abbrev Extends : AuditStore → AuditStore → Type 0
  Extends store store' =
      (rs : List AuditRecord) × (store'.records ≡ store.records ++ rs)
      × Linked store.sequence store.last_hash rs
      × (store'.last_hash ≡ end_hash store.last_hash rs)

  verify_lines-Extends :
      (lines : List Text) (store store' : AuditStore)
      → verify_lines h codec lines store ≡ ok store'
      → Extends store store'
  unfolding verify_lines end_hash
  verify_lines-Extends [] store store' e =
      subst (Extends store) (ok-injective e) ([], sym (append-nil _), tt, refl)
  verify_lines-Extends (raw ∷ rest) store store' e =
      elim (Option-cases (codec.decode (drop_cr raw))) [
        | inl p ↦ absurd (ground arith)
        | inr (r, p) ↦ elim (Result-cases (check_record h codec store.sequence store.last_hash r)) [
          | inr (x, c) ↦ absurd (ground arith)
          | inl (u, c) ↦
              let (rs, q, l, f) =
                verify_lines-Extends rest
                  (record store {
                    records = store.records ++ r ∷ [];
                    last_hash = r.entry_hash;
                    sequence = r.sequence;
                  })
                  store' (ground arith) in
              (
                r ∷ rs,
                q ∙ append_assoc store.records (r ∷ []) rs,
                (check_record-IsEntry store.sequence store.last_hash r u c, l),
                f,
              )
        ]
      ]

  -- Among these records equal hashes are of equal canonical forms.
  abbrev pub NoCollision : List AuditRecord → List AuditRecord → Type 0
  NoCollision rs qs =
      All
        (λ r.
          All
            (λ q.
              audit_hash h codec r ≡ audit_hash h codec q → canonical_audit r ≡ canonical_audit q)
            qs)
        rs

  hash_inv :
      (r : AuditRecord)
      → hash_agrees h codec (audit_hash h codec r) r.entry_hash ≡ true
      → (d : Text) × (audit_hash h codec r ≡ some d) × IsLow d × (equal_fold d r.entry_hash ≡ true)
  unfolding audit_hash
  hash_inv r e = elim (Option-cases (codec.canonical (canonical_audit r))) [
    | inl p ↦ absurd (ground arith)
    | inr (b, p) ↦ (hex_digest h b, ground arith, hex_digest-IsLow h b, ground arith)
  ]

  -- Two records with one entry hash have one hash.
  same_hash :
      (r q : AuditRecord)
      → hash_agrees h codec (audit_hash h codec r) r.entry_hash ≡ true
      → hash_agrees h codec (audit_hash h codec q) q.entry_hash ≡ true
      → r.entry_hash ≡ q.entry_hash
      → audit_hash h codec r ≡ audit_hash h codec q
  same_hash r q vr vq e =
      let (d, dr, ld, fr) = hash_inv r vr in
      let (c, dq, lc, fq) = hash_inv q vq in
      dr
      ∙ ap some (
          equal_fold_low d c ld lc (
            equal_fold_trans d q.entry_hash c (subst (λ t. equal_fold d t ≡ true) e fr)
              (equal_fold_comm q.entry_hash c ∙ fq)))
      ∙ sym dq

  All-tail :
      (rs qs : List AuditRecord) (q : AuditRecord) → NoCollision rs (q ∷ qs) → NoCollision rs qs
  All-tail [] qs q n = tt
  All-tail (r ∷ rs) qs q n = (n.0.1, All-tail rs qs q n.1)

  Linked-unique :
      (rs qs : List AuditRecord) (s t : ℕ) (p q : Text)
      → length rs ≡ length qs
      → Linked s p rs
      → Linked t q qs
      → NoCollision rs qs
      → end_hash p rs ≡ end_hash q qs
      → (map (λ r. canonical_audit r) rs ≡ map (λ r. canonical_audit r) qs) × (p ≡ q)
  unfolding end_hash
  Linked-unique [] [] s t p q n v w c e = (refl, e)
  Linked-unique [] (y ∷ qs) s t p q n v w c e = absurd (omega arith)
  Linked-unique (x ∷ rs) [] s t p q n v w c e = absurd (omega arith)
  Linked-unique (x ∷ rs) (y ∷ qs) s t p q n v w c e =
      let (tails, hashes) =
        Linked-unique rs qs x.sequence y.sequence x.entry_hash y.entry_hash (omega arith) v.1 w.1
          (All-tail rs qs y c.1) e in
      let heads = c.0.0 (same_hash x y v.0.hash w.0.hash hashes) in
      (ap₂ ◌∷◌ heads tails, sym v.0.link ∙ ap (λ k. k.previous_hash) heads ∙ w.0.link)

  open-Linked :
      (path : Text) (bytes : Text) (store : AuditStore)
      → open_audit_store h codec path (content bytes) ≡ ok store
      → Linked 0 [] store.records × (store.last_hash ≡ end_hash [] store.records)
  unfolding open_audit_store
  open-Linked path bytes store e =
      let (rs, q, l, f) =
        verify_lines-Extends (scan_lines bytes)
          (record { path = path; records = []; last_hash = []; sequence = 0 }) store
          (ground arith) in
      (rw q l, rw q f)

  -- A log cannot be rewritten behind its head hash. If two files open to the same number of records
  -- and the same head hash, and no two of their records have one hash with different canonical
  -- forms, then record by record they have the same canonical form: in sequence, ID, time, event,
  -- actor ID and kind, roles, permissions, plan, action, status, parameters and links.
  pub same_head_same_history :
      (path path' bytes bytes' : Text) (store store' : AuditStore)
      → open_audit_store h codec path (content bytes) ≡ ok store
      → open_audit_store h codec path' (content bytes') ≡ ok store'
      → length store.records ≡ length store'.records
      → store.last_hash ≡ store'.last_hash
      → NoCollision store.records store'.records
      → map (λ r. canonical_audit r) store.records ≡ map (λ r. canonical_audit r) store'.records
  same_head_same_history path path' bytes bytes' store store' o o' n e c =
      let (l, f) = open-Linked path bytes store o in
      let (l', f') = open-Linked path' bytes' store' o' in
      (Linked-unique store.records store'.records 0 0 [] [] n l l' c (sym f ∙ e ∙ f')).0
