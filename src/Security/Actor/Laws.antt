-- ===== src/Security/Actor/Laws.antt =====
-- What an actor may do after its normalisation, and the normal form.
use quantum_control.Prelude.{
  ℕ, ◌+◌, ◌≡◌, refl, sym, ap, subst, ◌∙◌, inl, inr, Bool, true, false, ◌&&◌, ◌||◌, not, Option,
  none, some, List, [], ◌∷◌, ◌++◌, arith, ltb, eqb, Bool-cases, Option-cases, ok, ◌>>=◌,
  Result-cases, ok-injective, some_inj, length,
}
use quantum_control.Text.{Text, text, ◌==◌, eq_iff, eq_refl}
use quantum_control.Text.Trim.{trim_space}
use mathlib.Core.Bool.{false≢true}
use quantum_control.Text.Trim.{IsGraphic, trim_space_graphic, trim_space_idempotent}
use quantum_control.Text.Sort.{
  contains, contains-append, contains-sort, contains-unique, sort, unique, unique-sort-IsStrict,
  IsStrict, any_of, any_of-unique-sort, sort_strict, unique_strict,
}
use quantum_control.Security.Types.{
  Actor, ActorKind, Permission, actor_tci, control_read, inventory_read, operation_catalog,
  operation_plan, operation_mutate, confirm, tci_propose,
}
use quantum_control.Security.Actor.{
  role_permissions, has_permission, collect_permissions, normalize_actor, matches_actor_id,
  known_kind, matches_namespace, matches_subject, all_bytes, is_subject,
}

-- What normalize_actor has established of its result.
record Normal (a b : Actor) : Type 0 where
  id_matches : matches_actor_id b.id ≡ true
  same_kind : b.kind ≡ a.kind
  sorted_roles : b.roles ≡ unique (sort a.roles)
  trimmed_name : b.display_name ≡ trim_space a.display_name
  bounded_name : (b.display_name == [] || ltb 160 (length b.display_name)) ≡ false
  known : known_kind b.kind ≡ true
  configured : eqb (length a.roles) 0 ≡ false
  no_confirm : (b.kind == actor_tci && contains confirm b.permissions) ≡ false
  no_mutate : (b.kind == actor_tci && contains operation_mutate b.permissions) ≡ false
  permissions :
      (ps : List Permission) × (collect_permissions b.kind b.roles ≡ ok ps)
      × (b.permissions ≡ unique (sort ps))

normalize_inv : (a b : Actor) → normalize_actor a ≡ ok b → Normal a b
unfolding normalize_actor
normalize_inv a b h = record {
  id_matches = ground arith;
  same_kind = ground arith;
  sorted_roles = ground arith;
  trimmed_name = ground arith;
  bounded_name = ground arith;
  known = ground arith;
  configured = ground arith;
  no_confirm = ground arith;
  no_mutate = ground arith;
  permissions = elim (Result-cases (collect_permissions a.kind (unique (sort a.roles)))) [
    | inl (ps, e) ↦ (ps, ground arith, ground arith)
    | inr (x, e) ↦ absurd (ground arith)
  ];
}

-- Whether one of the roles grants the permission by the table.
abbrev pub granted : Option (List Permission) → Permission → Bool
granted none p = false
granted (some ps) p = contains p ps

unfoldable pub roles_grant : List Text → Permission → Bool
unfolding any_of
roles_grant roles p = any_of (λ r. granted (role_permissions r) p) roles

split_permissions :
    (kind : ActorKind) (r : Text) (rs : List Text) (gs qs ps : List Permission)
    → role_permissions r ≡ some gs
    → collect_permissions kind rs ≡ ok qs
    → collect_permissions kind (r ∷ rs) ≡ ok ps
    → ps ≡ gs ++ qs
unfolding collect_permissions
split_permissions kind r rs gs qs ps e f h = ground arith

collect-contains :
    (kind : ActorKind) (roles : List Text) (ps : List Permission) (p : Permission)
    → collect_permissions kind roles ≡ ok ps
    → contains p ps ≡ roles_grant roles p
unfolding collect_permissions roles_grant
collect-contains kind [] ps p h = rw (← ok-injective h) (unfold contains in refl)
collect-contains kind (r ∷ rs) ps p h = elim (Option-cases (role_permissions r)) [
  | inl e ↦ absurd (ground arith)
  | inr (gs, e) ↦ elim (Result-cases (collect_permissions kind rs)) [
    | inl (qs, f) ↦
        rw (e, ← collect-contains kind rs qs p f)
          (ap (contains p) (split_permissions kind r rs gs qs ps e f h) ∙ contains-append p gs qs)
    | inr (x, f) ↦ absurd (ground arith)
  ]
]

contains-permissions :
    (b : Actor) (ps : List Permission) (p : Permission)
    → b.permissions ≡ unique (sort ps)
    → has_permission b p ≡ contains p ps
unfolding has_permission
contains-permissions b ps p e = rw e (contains-unique p (sort ps) ∙ contains-sort p ps)

-- A normalised actor has exactly the permissions that the table gives to the roles it was
-- configured with, its own permission list playing no part, and its roles are those roles in
-- strictly ascending order.
pub normalize_permissions_exact :
    (a b : Actor)
    → normalize_actor a ≡ ok b
    → ((p : Permission) → has_permission b p ≡ roles_grant a.roles p)
      × ((r : Text) → contains r b.roles ≡ contains r a.roles)
      × IsStrict b.roles
unfolding roles_grant
normalize_permissions_exact a b h =
    let n = normalize_inv a b h in
    let (ps, e, f) = n.permissions in
    (
      λ p.
          contains-permissions b ps p f
          ∙ collect-contains b.kind b.roles ps p e
          ∙ ap (any_of (λ r. granted (role_permissions r) p)) n.sorted_roles
          ∙ any_of-unique-sort _ a.roles,
      λ r. rw n.sorted_roles (contains-unique r (sort a.roles) ∙ contains-sort r a.roles),
      rw n.sorted_roles (unique-sort-IsStrict a.roles),
    )

-- The permissions that an actor of the kind tci may have.
abbrev pub tci_permissions : List Permission
tci_permissions =
    control_read ∷ inventory_read ∷ operation_catalog ∷ operation_plan ∷ tci_propose ∷ []

role_permissions-proposer : role_permissions (text "tci-proposer") ≡ some tci_permissions
unfolding role_permissions text ◌==◌
role_permissions-proposer = refl

role_permissions-reader :
    role_permissions (text "reader") ≡ some (control_read ∷ inventory_read ∷ operation_catalog ∷ [])
unfolding role_permissions text ◌==◌
role_permissions-reader = refl

-- The table gives the two roles that an actor of the kind tci may hold those permissions alone.
tci_role_permissions :
    (r : Text) (gs : List Permission) (p : Permission)
    → (not (r == text "tci-proposer") && not (r == text "reader")) ≡ false
    → role_permissions r ≡ some gs
    → contains p gs ≡ true
    → contains p tci_permissions ≡ true
tci_role_permissions r gs p k e c = elim (Bool-cases (r == text "tci-proposer")) [
  | inl q ↦
      subst (λ ps. contains p ps ≡ true)
        (some_inj (sym e ∙ ap role_permissions ((eq_iff r _).0 q) ∙ role_permissions-proposer)) c
  | inr q ↦
      contains-append p (control_read ∷ inventory_read ∷ operation_catalog ∷ [])
        (operation_plan ∷ tci_propose ∷ [])
      ∙ ap (λ b. b || contains p (operation_plan ∷ tci_propose ∷ []))
          (ap (contains p) (
              some_inj (
                sym role_permissions-reader
                ∙ ap role_permissions (sym ((eq_iff r (text "reader")).0 (ground arith)))
                ∙ e))
            ∙ c)
]

collect-tci :
    (kind : ActorKind) (roles : List Text) (ps : List Permission) (p : Permission)
    → (kind == actor_tci) ≡ true
    → collect_permissions kind roles ≡ ok ps
    → contains p ps ≡ true
    → contains p tci_permissions ≡ true
unfolding collect_permissions
collect-tci kind [] ps p k h c =
    absurd (false≢true (unfold contains in ap (contains p) (ok-injective h) ∙ c))
collect-tci kind (r ∷ rs) ps p k h c = elim (Option-cases (role_permissions r)) [
  | inl e ↦ absurd (ground arith)
  | inr (gs, e) ↦ elim (Result-cases (collect_permissions kind rs)) [
    | inl (qs, f) ↦ elim (Bool-cases (contains p gs)) [
      | inl own ↦ tci_role_permissions r gs p (ground arith) e own
      | inr other ↦
          collect-tci kind rs qs p k f
            (ground (arith, contains-append p gs qs, split_permissions kind r rs gs qs ps e f h))
    ]
    | inr (x, f) ↦ absurd (ground arith)
  ]
]

-- An actor of the kind tci that normalises has no permission beyond reading the control state,
-- the inventory and the catalog, planning and proposing: it can neither execute, mutate, confirm
-- nor read the audit.
pub normalize_tci_restricted :
    (a b : Actor) (p : Permission)
    → normalize_actor a ≡ ok b
    → (b.kind == actor_tci) ≡ true
    → has_permission b p ≡ true
    → contains p tci_permissions ≡ true
normalize_tci_restricted a b p h k c =
    let n = normalize_inv a b h in
    let (ps, e, f) = n.permissions in
    collect-tci b.kind b.roles ps p k e (sym (contains-permissions b ps p f) ∙ c)

IsGraphic-subject : (r : Text) → all_bytes is_subject r ≡ true → IsGraphic r
unfolding all_bytes is_subject
IsGraphic-subject [] h = tt
IsGraphic-subject (b ∷ r) h = (ground arith, IsGraphic-subject r (ground arith))

IsGraphic-matches : (max : ℕ) (r : Text) → matches_subject max r ≡ true → IsGraphic r
unfolding matches_subject
IsGraphic-matches max [] h = tt
IsGraphic-matches max (b ∷ r) h = (ground arith, IsGraphic-subject r (ground arith))

IsGraphic-namespace : (n : ℕ) (r : Text) → matches_namespace n r ≡ true → IsGraphic r
unfolding matches_namespace
IsGraphic-namespace n [] h = tt
IsGraphic-namespace n (b ∷ r) h = elim (Bool-cases (eqb b b':')) [
  | inl q ↦ (ground arith, IsGraphic-matches 95 r (ground arith))
  | inr q ↦ (ground arith, IsGraphic-namespace (n + 1) r (ground arith))
]

-- An accepted actor ID holds no white space.
IsGraphic-actor_id : (r : Text) → matches_actor_id r ≡ true → IsGraphic r
unfolding matches_actor_id
IsGraphic-actor_id [] h = tt
IsGraphic-actor_id (b ∷ r) h = (ground arith, IsGraphic-namespace 0 r (ground arith))

nonempty_of_contains :
    (rs qs : List Text)
    → ((r : Text) → contains r qs ≡ contains r rs)
    → eqb (length rs) 0 ≡ false
    → eqb (length qs) 0 ≡ false
nonempty_of_contains [] qs same n = absurd (ground arith)
nonempty_of_contains (r ∷ rs) [] same n =
    absurd (false≢true (unfold contains in ground (arith, same r, eq_refl r)))
nonempty_of_contains (r ∷ rs) (q ∷ qs) same n = ground arith

-- The tests of normalize_actor in the order of the source, as facts.
normalize_fixed :
    (b : Actor) (ps : List Permission)
    → trim_space b.id ≡ b.id
    → trim_space b.display_name ≡ b.display_name
    → unique (sort b.roles) ≡ b.roles
    → collect_permissions b.kind b.roles ≡ ok ps
    → b.permissions ≡ unique (sort ps)
    → matches_actor_id b.id ≡ true
    → (b.display_name == [] || ltb 160 (length b.display_name)) ≡ false
    → known_kind b.kind ≡ true
    → eqb (length b.roles) 0 ≡ false
    → (b.kind == actor_tci && contains confirm b.permissions) ≡ false
    → (b.kind == actor_tci && contains operation_mutate b.permissions) ≡ false
    → normalize_actor b ≡ ok b
unfolding normalize_actor
normalize_fixed b ps id name roles collected permissions m d k n c o =
    rw (id, name, roles, collected, ← permissions, m, d, k, n, c, o, ◌>>=◌) refl

-- Normalising a second time changes nothing.
pub normalize_idempotent : (a b : Actor) → normalize_actor a ≡ ok b → normalize_actor b ≡ ok b
normalize_idempotent a b h =
    let n = normalize_inv a b h in
    let (ps, e, f) = n.permissions in
    let exact = normalize_permissions_exact a b h in
    normalize_fixed b ps (trim_space_graphic b.id (IsGraphic-actor_id b.id n.id_matches))
      (rw n.trimmed_name (trim_space_idempotent a.display_name))
      (rw (sort_strict b.roles exact.2) (unique_strict b.roles exact.2)) e f n.id_matches
      n.bounded_name n.known (nonempty_of_contains a.roles b.roles exact.1 n.configured)
      n.no_confirm n.no_mutate
