-- ===== src/Security/Auth/Laws.antt =====
-- Whom a bearer token authenticates.
use quantum_control.Prelude.{
  ℕ, ◌≡◌, refl, sym, ap, subst, ◌∙◌, inl, inr, true, false, Option, none, some, List, [], ◌∷◌,
  arith, if◌then◌else◌, Bool-cases, Option-cases, ok, Result-cases, ok-injective, length,
}
use quantum_control.Text.{Text, ◌==◌, eq_refl}
use quantum_control.Text.Trim.{trim_space}
use quantum_control.Text.Hex
use quantum_control.Text.Sort.{contains}
use quantum_control.Security.Types.{Actor, ActorCredential, ActorRegistry, Permission, actor_tci}
use quantum_control.Security.Actor.{normalize_actor, has_permission}
use quantum_control.Security.Actor.Laws.{
  normalize_idempotent, normalize_tci_restricted, tci_permissions,
}
use quantum_control.Security.Digest.{
  Sha256, hex_digest, decode_sha256, decode_sha256-AreBytes, all_zero, decode-hex_digest,
}
use quantum_control.Security.Auth.{
  find_credential, digest_matches, normalize_credentials, load_actor_registry, authenticate_bearer,
  new_static_authenticator,
}

-- A credential as the registry keeps it: its actor in normal form, its ID apart from those
-- before it, and the low hexadecimal digits of a digest of 32 bytes that is not zero.
pub record IsLoaded (seen : List Text) (c : ActorCredential) : Type 0 where
  pub normal : normalize_actor c.actor ≡ ok c.actor
  pub fresh : contains c.actor.id seen ≡ false
  pub digest :
      (d : List ℕ) × (c.token_sha256 ≡ Hex.encode d)
      × (length d ≡ 32)
      × Hex.AreBytes d
      × (all_zero d ≡ false)

abbrev pub AreLoaded : List Text → List ActorCredential → Type 0
AreLoaded seen [] = Unit {0}
AreLoaded seen (c ∷ cs) = IsLoaded seen c × AreLoaded (c.actor.id ∷ seen) cs

credentials_inv :
    (seen : List Text) (c : ActorCredential) (cs ds : List ActorCredential)
    → normalize_credentials seen (c ∷ cs) ≡ ok ds
    → (a : Actor) × (d : List ℕ) × (rest : List ActorCredential) × (normalize_actor c.actor ≡ ok a)
      × (contains a.id seen ≡ false)
      × (length d ≡ 32)
      × Hex.AreBytes d
      × (all_zero d ≡ false)
      × (normalize_credentials (a.id ∷ seen) cs ≡ ok rest)
      × (ds ≡ record { actor = a; token_sha256 = Hex.encode d } ∷ rest)
unfolding normalize_credentials
credentials_inv seen c cs ds e = elim (Result-cases (normalize_actor c.actor)) [
  | inr (x, p) ↦ absurd (ground arith)
  | inl (a, p) ↦ elim (Option-cases (decode_sha256 c.token_sha256)) [
    | inl q ↦ absurd (ground arith)
    | inr (d, q) ↦ elim (Result-cases (normalize_credentials (a.id ∷ seen) cs)) [
      | inl (rest, r) ↦
          let (size, bytes) = decode_sha256-AreBytes c.token_sha256 d q in
          (a, d, rest, p, ground arith, size, bytes, ground arith, r, ground arith)
      | inr (x, r) ↦ absurd (ground arith)
    ]
  ]
]

credentials_nil :
    (seen : List Text) (ds : List ActorCredential) → normalize_credentials seen [] ≡ ok ds → [] ≡ ds
unfolding normalize_credentials
credentials_nil seen ds e = ok-injective e

normalize_credentials-AreLoaded :
    (seen : List Text) (cs ds : List ActorCredential)
    → normalize_credentials seen cs ≡ ok ds
    → AreLoaded seen ds
normalize_credentials-AreLoaded seen [] ds e = subst (AreLoaded seen) (credentials_nil seen ds e) tt
normalize_credentials-AreLoaded seen (c ∷ cs) ds e =
    let (a, d, rest, p, fresh, size, bytes, nonzero, r, shape) = credentials_inv seen c cs ds e in
    subst (AreLoaded seen) (sym shape) (
      record {
        normal = normalize_idempotent c.actor a p;
        fresh = fresh;
        digest = (d, refl, size, bytes, nonzero);
      },
      normalize_credentials-AreLoaded (a.id ∷ seen) cs rest r,
    )

-- What load_actor_registry returns is a list of loaded credentials: every actor is in normal
-- form, no two actors share an ID, and every digest is the canonical text of 32 bytes that are not all
-- zero.
pub load_actor_registry-AreLoaded :
    (decode : Text → Option ActorRegistry) (file : Option Text) (cs : List ActorCredential)
    → load_actor_registry decode file ≡ ok cs
    → AreLoaded [] cs
unfolding load_actor_registry
load_actor_registry-AreLoaded decode none cs e = absurd (ground arith)
load_actor_registry-AreLoaded decode (some content) cs e = elim (Option-cases (decode content)) [
  | inl p ↦ absurd (ground arith)
  | inr (r, p) ↦ normalize_credentials-AreLoaded [] r.actors cs (ground arith)
]

find_credential-normal :
    (seen : List Text) (cs : List ActorCredential) (d : List ℕ) (a : Actor)
    → AreLoaded seen cs
    → find_credential d cs ≡ some a
    → normalize_actor a ≡ ok a
unfolding find_credential
find_credential-normal seen [] d a l e = absurd (ground arith)
find_credential-normal seen (c ∷ cs) d a l e =
    elim (Bool-cases (digest_matches d (decode_sha256 c.token_sha256))) [
      | inl p ↦ subst (λ b. normalize_actor b ≡ ok b) (ground arith) l.0.normal
      | inr p ↦ find_credential-normal (c.actor.id ∷ seen) cs d a l.1 (ground arith)
    ]

module _ (h : Sha256) where
  -- Whoever authenticates against a loaded registry under the kind tci holds none but the
  -- permissions of the proposal role.
  pub authenticate_tci_restricted :
      (decode : Text → Option ActorRegistry) (file : Option Text) (cs : List ActorCredential)
      (token : Text) (a : Actor) (p : Permission)
      → load_actor_registry decode file ≡ ok cs
      → authenticate_bearer h cs token ≡ some a
      → (a.kind == actor_tci) ≡ true
      → has_permission a p ≡ true
      → contains p tci_permissions ≡ true
  authenticate_tci_restricted decode file cs token a p l e k g =
      normalize_tci_restricted a a p
        (find_credential-normal [] cs (h.sum token) a
          (load_actor_registry-AreLoaded decode file cs l)
          (unfold authenticate_bearer in ground arith))
        k g

  authenticate_single :
      (a : Actor) (raw token : Text)
      → authenticate_bearer h (record { actor = a; token_sha256 = hex_digest h raw } ∷ []) token ≡ (
          if trim_space token == []
          then none
          else if h.sum token == h.sum raw
          then some a
          else none)
  unfolding authenticate_bearer
  authenticate_single a raw token = rw (decode-hex_digest h raw, find_credential)

  -- A static authenticator accepts its own token, for its normalised actor, and of other tokens
  -- those alone that are not blank and have the same digest.
  pub new_static_authenticator_exact :
      (actor : Actor) (raw : Text) (cs : List ActorCredential)
      → new_static_authenticator h actor raw ≡ some (ok cs)
      → (a : Actor) × (normalize_actor actor ≡ ok a)
        × (authenticate_bearer h cs raw ≡ some a)
        × ((token : Text)
            → authenticate_bearer h cs token ≡ (
                if trim_space token == []
                then none
                else if h.sum token == h.sum raw
                then some a
                else none))
  unfolding new_static_authenticator
  new_static_authenticator_exact actor raw cs e = elim (Result-cases (normalize_actor actor)) [
    | inr (x, p) ↦ absurd (ground arith)
    | inl (a, p) ↦
        let shape : record { actor = a; token_sha256 = hex_digest h raw } ∷ [] ≡ cs =
          ground arith in
        (
          a,
          p,
          subst (λ ds. authenticate_bearer h ds raw ≡ some a) shape
              (authenticate_single a raw raw ∙ ground (arith, eq_refl (h.sum raw))),
          λ token.
              ap (λ ds. authenticate_bearer h ds token) (sym shape)
              ∙ authenticate_single a raw token,
        )
  ]
