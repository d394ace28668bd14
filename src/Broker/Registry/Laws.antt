-- ===== src/Broker/Registry/Laws.antt =====
-- What Registry.validate lets through.
use quantum_control.Prelude.{
  ◌≡◌, sym, ap, subst, ◌∙◌, inl, inr, Bool, true, false, ◌&&◌, some, List, [], ◌∷◌, map, arith,
  Bool-cases, Option-cases, ok, Result-cases, All,
}
use quantum_control.Text.{Text}
use quantum_control.Text.Trim.{trim_space}
use quantum_control.Text.Sort.{contains}
use quantum_control.Protocol.{OperationRequest, ParameterDefinition, StringMap, lookup}
use quantum_control.Broker.Registry.{
  Registry, RegisteredOperation, Compile, is_blank, check_present, validate_parameter,
  check_parameters, check_names, validate,
}

module _ (compile : Compile) (quote : Text → Text) where
  check_names-All :
      (names : List Text) (given : StringMap) (u : Unit {0})
      → check_names compile quote names given ≡ ok u
      → All (λ e. contains e.0 names ≡ true) given
  unfolding check_names
  check_names-All names [] u e = tt
  check_names-All names ((name, value) ∷ rest) u e = elim (Bool-cases (contains name names)) [
    | inl c ↦ (c, check_names-All names rest u (ground arith))
    | inr c ↦ absurd (ground arith)
  ]

  -- A required parameter is given and not blank, and a given one passes its own policy.
  pub record IsGiven (given : StringMap) (d : ParameterDefinition) : Type 0 where
    pub present : d.required ≡ true → is_blank (lookup d.name given) ≡ false
    pub accepted :
        (value : Text)
        → lookup d.name given ≡ some value
        → validate_parameter compile quote d value ≡ ok tt

  check_parameters-All :
      (ds : List ParameterDefinition) (given : StringMap) (u : Unit {0})
      → check_parameters compile quote ds given ≡ ok u
      → All (IsGiven given) ds
  unfolding check_parameters
  check_parameters-All [] given u e = tt
  check_parameters-All (d ∷ ds) given u e =
      elim (Bool-cases (d.required && is_blank (lookup d.name given))) [
        | inl b ↦ absurd (ground arith)
        | inr b ↦ elim (Result-cases (check_present compile quote d (lookup d.name given))) [
          | inr (x, c) ↦ absurd (ground arith)
          | inl (v, c) ↦ (
            record {
              present = λ r. ground arith;
              accepted = λ value l. sym (ap (check_present compile quote d) l) ∙ c;
            },
            check_parameters-All ds given u (ground arith),
          )
        ]
      ]

  -- A request that passes names an implemented operation of the catalog, up to white space; it is one
  -- that needs no confirmation if the request is for execution; every required parameter is given
  -- and not blank; every parameter of the definition that is given passes its policy; and no other
  -- parameter is given.
  pub validate_sound :
      (r : Registry) (request : OperationRequest) (execution : Bool)
      (operation : RegisteredOperation)
      → validate compile quote r request execution ≡ ok operation
      → (lookup (trim_space request.action) r.operations ≡ some operation)
        × (operation.definition.implemented ≡ true)
        × (execution ≡ true → operation.definition.requires_confirmation ≡ false)
        × All (IsGiven request.parameters) operation.definition.parameters
        × All
            (λ e. contains e.0 (map (λ d. d.name) operation.definition.parameters) ≡ true)
            request.parameters
  unfolding validate
  validate_sound r request execution operation e =
      elim (Option-cases (lookup (trim_space request.action) r.operations)) [
        | inl p ↦ absurd (ground arith)
        | inr (o, p) ↦
            elim (Result-cases
              (check_parameters compile quote o.definition.parameters request.parameters)) [
                | inr (x, q) ↦ absurd (ground arith)
                | inl (u, q) ↦
                    elim (Result-cases (
                      check_names compile quote (map (λ d. d.name) o.definition.parameters)
                        request.parameters)) [
                          | inr (x, k) ↦ absurd (ground arith)
                          | inl (v, k) ↦
                              let same : o ≡ operation = ground arith in
                              subst
                                (λ a.
                                  (lookup (trim_space request.action) r.operations ≡ some a)
                                  × (a.definition.implemented ≡ true)
                                  × (execution ≡ true → a.definition.requires_confirmation ≡ false)
                                  × All (IsGiven request.parameters) a.definition.parameters
                                  × All
                                      (λ e.
                                        contains e.0 (map (λ d. d.name) a.definition.parameters)
                                        ≡ true)
                                      request.parameters)
                                same
                                (
                                  p,
                                  ground arith,
                                  λ x. ground arith,
                                  check_parameters-All o.definition.parameters request.parameters u
                                      q,
                                  check_names-All (map (λ d. d.name) o.definition.parameters)
                                      request.parameters v k,
                                )
                        ]
              ]
      ]
