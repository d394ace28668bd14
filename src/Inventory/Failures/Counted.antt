-- ===== src/Inventory/Failures/Counted.antt =====
-- A scan counts its failed probes.
use quantum_control.Prelude.{
  ℕ, ◌+◌, ◌≡◌, refl, ap, ap₂, ◌∙◌, inl, inr, Bool, true, false, ◌||◌, Option, none, some, List, [],
  ◌∷◌, arith, Bool-cases,
}
use quantum_control.Text.{Text, text, ◌==◌}
use quantum_control.Inventory.Scan.{
  Observer, ComponentDefinition, start_scan, probe_each, run_probes, marker_list,
}
use quantum_control.Inventory.Steps.{
  ServiceState, VersionProbe, FileProbe, probe_failed, missing_file, file_content, Scan, see_path,
  see_marker, see_files, see_glob, add_names, see_service_glob, see_service, versioned,
  see_version_file, see_version,
}
use quantum_control.Inventory.Version.{clean_version}
use quantum_control.Inventory.Failures.{
  after_each, failures_each, no_answer, no_file, with_bases, with_matches, units_each, probe_file,
  failed_probes,
}

-- A loop whose steps count the failures counts all of them.
probe_each-errors {ℓ} :
    {W : Type 0} {A : Type 0} {B : Type ℓ} (probe : A → W → B × W) (see : A → B → Scan → Scan)
    (fails : B → ℕ)
    → ((item : A) (answer : B) (s : Scan) → (see item answer s).errors ≡ s.errors + fails answer)
    → (items : List A) (s : Scan) (w : W)
    → ((probe_each probe see items (s, w)).0.errors ≡ s.errors + failures_each probe fails items w)
      × ((probe_each probe see items (s, w)).1 ≡ after_each probe items w)
unfolding probe_each failures_each after_each
probe_each-errors probe see fails step [] s w = (omega arith, refl)
probe_each-errors probe see fails step (item ∷ rest) s w =
    let (n, last) =
      probe_each-errors probe see fails step rest (see item (probe item w).0 s) (probe item w).1 in
    (omega (arith, n, step item (probe item w).0 s), last)

path-errors :
    (path : Text) (answer : Option Bool) (s : Scan)
    → (see_path path answer s).errors ≡ s.errors + no_answer answer
unfolding see_path
path-errors path none s = refl
path-errors path (some false) s = omega arith
path-errors path (some true) s = omega arith

marker-errors :
    (path : Text) (answer : Option Bool) (s : Scan)
    → (see_marker path answer s).errors ≡ s.errors + no_answer answer
unfolding see_marker
marker-errors path none s = refl
marker-errors path (some false) s = omega arith
marker-errors path (some true) s = omega arith

files-same :
    (matches : List Text) (s : Scan)
    → ((see_files matches s).errors ≡ s.errors) × ((see_files matches s).names ≡ s.names)
unfolding see_files
files-same [] s = (refl, refl)
files-same (match ∷ rest) s = files-same rest _

glob-errors :
    (pattern : Text) (answer : Option (List Text)) (s : Scan)
    → (see_glob pattern answer s).errors ≡ s.errors + no_answer answer
unfolding see_glob
glob-errors pattern none s = refl
glob-errors pattern (some matches) s = omega (arith, (files-same matches s).0)

bases-same :
    (matches : List Text) (s : Scan)
    → ((add_names matches s).errors ≡ s.errors)
      × ((add_names matches s).names ≡ with_bases matches s.names)
unfolding add_names with_bases
bases-same [] s = (refl, refl)
bases-same (match ∷ rest) s = bases-same rest _

service_glob-errors :
    (pattern : Text) (answer : Option (List Text)) (s : Scan)
    → (see_service_glob pattern answer s).errors ≡ s.errors + no_answer answer
unfolding see_service_glob
service_glob-errors pattern none s = refl
service_glob-errors pattern (some matches) s = omega (arith, (bases-same matches s).0)

service_glob-names :
    (pattern : Text) (answer : Option (List Text)) (s : Scan)
    → (see_service_glob pattern answer s).names ≡ with_matches answer s.names
unfolding see_service_glob
service_glob-names pattern none s = refl
service_glob-names pattern (some matches) s = (bases-same matches s).1

service-errors :
    (unit : Text) (answer : Option ServiceState) (s : Scan)
    → (see_service unit answer s).errors ≡ s.errors + no_answer answer
unfolding see_service
service-errors unit none s = refl
service-errors unit (some state) s =
    elim (Bool-cases (state.load_state == [] || state.load_state == text "not-found")) [
      | inl b ↦ rw (see_service, b) (omega arith)
      | inr b ↦
          rw (see_service, b)
            (elim (Bool-cases (state.active_state == text "active")) [
              | inl a ↦ rw a (omega arith)
              | inr a ↦ rw a (omega arith)
            ])
    ]

versioned-errors :
    (kind source value : Text) (s : Scan) → (versioned kind source value s).errors ≡ s.errors
versioned-errors kind source value s = elim (Bool-cases (value == [])) [
  | inl b ↦ rw b refl
  | inr b ↦ rw b refl
]

file-errors :
    (find : Text → Option Text) (path : Text) (answer : FileProbe) (s : Scan)
    → (see_version_file find path answer s).errors ≡ s.errors + no_file answer
unfolding see_version_file
file-errors find path probe_failed s = refl
file-errors find path missing_file s = omega arith
file-errors find path (file_content bytes) s =
    omega (arith, versioned-errors (text "version-file") path (clean_version find bytes) s)

version-errors :
    (find : Text → Option Text) (probe : VersionProbe) (answer : Option Text) (s : Scan)
    → (see_version find probe answer s).errors ≡ s.errors + 0
unfolding see_version
version-errors find probe none s = omega arith
version-errors find probe (some output) s =
    omega (arith, versioned-errors (text "version") probe.command (clean_version find output) s)

-- A loop whose steps keep the names keeps them.
probe_each-names {ℓ} :
    {W : Type 0} {A : Type 0} {B : Type ℓ} (probe : A → W → B × W) (see : A → B → Scan → Scan)
    → ((item : A) (answer : B) (s : Scan) → (see item answer s).names ≡ s.names)
    → (items : List A) (s : Scan) (w : W) → (probe_each probe see items (s, w)).0.names ≡ s.names
unfolding probe_each
probe_each-names probe see step [] s w = refl
probe_each-names probe see step (item ∷ rest) s w =
    probe_each-names probe see step rest (see item (probe item w).0 s) (probe item w).1
    ∙ step item (probe item w).0 s

path-names :
    (path : Text) (answer : Option Bool) (s : Scan) → (see_path path answer s).names ≡ s.names
unfolding see_path
path-names path none s = refl
path-names path (some false) s = refl
path-names path (some true) s = refl

marker-names :
    (path : Text) (answer : Option Bool) (s : Scan) → (see_marker path answer s).names ≡ s.names
unfolding see_marker
marker-names path none s = refl
marker-names path (some false) s = refl
marker-names path (some true) s = refl

glob-names :
    (pattern : Text) (answer : Option (List Text)) (s : Scan)
    → (see_glob pattern answer s).names ≡ s.names
unfolding see_glob
glob-names pattern none s = refl
glob-names pattern (some matches) s = (files-same matches s).1

failures_none {ℓ} :
    {W : Type 0} {A : Type 0} {B : Type ℓ} (probe : A → W → B × W) (items : List A) (w : W)
    → failures_each probe (λ answer. 0) items w ≡ 0
unfolding failures_each
failures_none probe [] w = refl
failures_none probe (item ∷ rest) w = omega (arith, failures_none probe rest (probe item w).1)

units_of_globs :
    {W : Type 0} (glob : Text → W → Option (List Text) × W) (globs : List Text) (s : Scan) (w : W)
    → (probe_each glob see_service_glob globs (s, w)).0.names ≡ units_each glob globs s.names w
unfolding probe_each units_each
units_of_globs glob [] s w = refl
units_of_globs glob (pattern ∷ rest) s w =
    units_of_globs glob rest (see_service_glob pattern (glob pattern w).0 s) (glob pattern w).1
    ∙ ap (λ names. units_each glob rest names (glob pattern w).1)
        (service_glob-names pattern (glob pattern w).0 s)

module _ {W : Type 0} (observer : Observer W) (find : Text → Option Text) where
  -- A scan counts the failed probes.
  pub errors_of_probes :
      (definition : ComponentDefinition) (w : W)
      → (run_probes observer find definition w).0.errors ≡ failed_probes observer find definition w
  unfolding run_probes failed_probes
  errors_of_probes definition w =
      let marker = marker_list observer find definition.managed_marker in
      let s₁ =
        probe_each observer.path_exists see_path definition.paths (start_scan definition, w) in
      let s₂ = probe_each observer.path_exists see_marker marker s₁ in
      let s₃ = probe_each observer.glob see_glob definition.globs s₂ in
      let s₄ = probe_each observer.glob see_service_glob definition.service_globs s₃ in
      let s₅ = probe_each observer.service see_service s₄.0.names s₄ in
      let files = probe_file observer find in
      let s₆ = probe_each files (see_version_file find) definition.version_files s₅ in
      let w₁ = after_each observer.path_exists definition.paths w in
      let w₂ = after_each observer.path_exists marker w₁ in
      let w₃ = after_each observer.glob definition.globs w₂ in
      let w₄ = after_each observer.glob definition.service_globs w₃ in
      let units = units_each observer.glob definition.service_globs definition.services w₃ in
      let (n₁, e₁) =
        probe_each-errors observer.path_exists see_path no_answer path-errors definition.paths
          (start_scan definition) w in
      let (n₂, e₂) =
        probe_each-errors observer.path_exists see_marker no_answer marker-errors marker s₁.0
          s₁.1 in
      let (n₃, e₃) =
        probe_each-errors observer.glob see_glob no_answer glob-errors definition.globs s₂.0 s₂.1 in
      let (n₄, e₄) =
        probe_each-errors observer.glob see_service_glob no_answer service_glob-errors
          definition.service_globs s₃.0 s₃.1 in
      let (n₅, e₅) =
        probe_each-errors observer.service see_service no_answer service-errors s₄.0.names s₄.0
          s₄.1 in
      let (n₆, e₆) =
        probe_each-errors files (see_version_file find) no_file (file-errors find)
          definition.version_files s₅.0 s₅.1 in
      let (n₇, _) =
        probe_each-errors
          (λ (probe : VersionProbe) v. observer.command probe.command probe.arguments v)
          (see_version find) (λ answer. 0) (version-errors find) definition.versions s₆.0 s₆.1 in
      let names =
        units_of_globs observer.glob definition.service_globs s₃.0 s₃.1
        ∙ ap (λ names. units_each observer.glob definition.service_globs names s₃.1)
            (probe_each-names observer.glob see_glob glob-names definition.globs s₂.0 s₂.1
              ∙ probe_each-names observer.path_exists see_marker marker-names marker s₁.0 s₁.1
              ∙ probe_each-names observer.path_exists see_path path-names definition.paths
                  (start_scan definition) w) in
      let u₂ = e₂ ∙ ap (after_each observer.path_exists marker) e₁ in
      let u₃ = e₃ ∙ ap (after_each observer.glob definition.globs) u₂ in
      let u₄ = e₄ ∙ ap (after_each observer.glob definition.service_globs) u₃ in
      let same : s₄.0.names ≡ units =
        names ∙ ap (units_each observer.glob definition.service_globs definition.services) u₃ in
      let u₅ = e₅ ∙ ap₂ (after_each observer.service) same u₄ in
      omega (
        arith,
        n₁,
        n₂,
        n₃,
        n₄,
        n₅,
        n₆,
        n₇,
        ap (failures_each observer.path_exists no_answer marker) e₁,
        ap (failures_each observer.glob no_answer definition.globs) u₂,
        ap (failures_each observer.glob no_answer definition.service_globs) u₃,
        ap₂ (failures_each observer.service no_answer) same u₄,
        ap (failures_each files no_file definition.version_files) u₅,
        failures_none (λ (probe : VersionProbe) v. observer.command probe.command probe.arguments v)
            definition.versions s₆.1,
      )
