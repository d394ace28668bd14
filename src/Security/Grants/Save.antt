-- ===== src/Security/Grants/Save.antt =====
-- The two outcomes of a save: everything is replaced, or nothing.
use quantum_control.Prelude.{
  ◌≡◌, ◌⊎◌, inl, inr, some, List, [], ◌∷◌, ◌++◌, arith, Option-cases, ok, err, Result-cases,
}
use quantum_control.Text.{Text}
use quantum_control.Security.Grants.{
  StoredGrant, GrantStore, GrantState, GrantError, Disk, Calls, StoreEncoder, save, prepare_file,
}

abbrev pub with_grants : GrantStore → List StoredGrant → GrantStore
with_grants store grants = record store { state = record store.state { grants = grants } }

module _ (encode : StoreEncoder) (calls : Calls) where
  pub prepare_file_inv :
      (state : GrantState) (bytes : Text)
      → prepare_file encode calls state ≡ ok bytes
      → (json : Text) × (encode state ≡ some json) × (bytes ≡ json ++ 10 ∷ [])
  unfolding prepare_file
  prepare_file_inv state bytes e = elim (Option-cases (encode state)) [
    | inl p ↦ absurd (ground arith)
    | inr (json, p) ↦ (json, p, ground arith)
  ]

  -- Either the answer is given, and memory and file both hold the changed grants, or the save
  -- fails and both are as they were.
  pub save_cases {ℓ} :
      {A : Type ℓ} (changed : List StoredGrant) (answer : A) (store : GrantStore) (disk : Disk)
      → ((json : Text) × (encode (with_grants store changed).state ≡ some json)
          × (save encode calls changed answer store disk
              ≡ (ok answer, with_grants store changed, some (json ++ 10 ∷ []))))
        ⊎ ((e : GrantError) × (save encode calls changed answer store disk ≡ (err e, store, disk)))
  unfolding save
  save_cases changed answer store disk =
      elim (Result-cases (prepare_file encode calls (with_grants store changed).state)) [
        | inl (bytes, p) ↦
            let (json, q, r) = prepare_file_inv (with_grants store changed).state bytes p in
            inl (json, q, rw (p, r, save))
        | inr (e, p) ↦ inr (e, rw (p, save))
      ]
