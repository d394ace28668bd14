-- ===== src/ServiceControl/Policy/Laws.antt =====
-- A policy only narrows the compiled services.
use quantum_control.Prelude.{
  ◌≡◌, refl, sym, ap, ◌∙◌, inl, inr, false, Option, none, some, List, [], ◌∷◌, map, arith,
  if◌then◌else◌, Option-cases, ok, ok-injective,
}
use quantum_control.Text.{Text, ◌==◌, eq_iff}
use quantum_control.Text.Trim.{trim_space}
use quantum_control.Text.Sort.{contains}
use quantum_control.Protocol.{lookup, insert, lookup-insert}
use quantum_control.ServiceControl.Policy.{
  Policy, PolicyFile, ServiceSpec, compiled_services, allow_units, load_policy, spec,
}

-- The compiled service of a unit if a document names the unit, up to white space.
abbrev pub named : List Text → Text → Option ServiceSpec → Option ServiceSpec
named units unit other =
    if contains unit (map trim_space units) then lookup unit compiled_services else other

allow_units-named :
    (units : List Text) (allowed policy : Policy) (unit : Text)
    → allow_units units allowed ≡ ok policy
    → lookup unit policy ≡ named units unit (lookup unit allowed)
unfolding allow_units contains
allow_units-named [] allowed policy unit e = ap (lookup unit) (sym (ok-injective e))
allow_units-named (raw ∷ rest) allowed policy unit e =
    elim (Option-cases (lookup (trim_space raw) compiled_services)) [
      | inl p ↦ absurd (ground arith)
      | inr (s, p) ↦
          allow_units-named rest (insert (trim_space raw) s allowed) policy unit (ground arith)
          ∙ ap (named rest unit) (lookup-insert (trim_space raw) unit s allowed)
          ∙ ground (arith, eq_iff (trim_space raw) unit, p)
    ]

-- A policy file selects compiled services and no others: after a load from a path that is not
-- blank the specification of each unit is the compiled one if the document names the unit, up to
-- white space, and there is none otherwise. So no file adds a service or changes a health URL.
pub load_policy_exact :
    (decode : Text → Option PolicyFile) (path file : Text) (document : PolicyFile) (policy : Policy)
    (unit : Text)
    → (trim_space path == []) ≡ false
    → decode file ≡ some document
    → load_policy decode path (some file) ≡ ok policy
    → spec policy unit ≡ named document.allowed_units unit none
unfolding load_policy
load_policy_exact decode path file document policy unit p d e =
    allow_units-named document.allowed_units [] policy unit (ground arith) ∙ unfold lookup in refl
