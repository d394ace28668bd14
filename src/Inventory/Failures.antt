-- ===== src/Inventory/Failures.antt =====
-- The failed probes of a scan, counted by the answers of the observer alone.
pub mod Counted
use quantum_control.Prelude.{
  ℕ, ◌+◌, ◌≡◌, refl, ap, ap₂, ◌∙◌, inl, inr, Bool, true, false, ◌||◌, Option, none, some, List, [],
  ◌∷◌, arith, Bool-cases,
}
use quantum_control.Text.{Text, text, ◌==◌}
use quantum_control.Inventory.Scan.{
  Observer, ComponentDefinition, start_scan, probe_each, run_probes, marker_list, file_probe,
}
use quantum_control.Inventory.Steps.{
  ServiceState, VersionProbe, FileProbe, probe_failed, missing_file, file_content, Scan,
  append_unique, base, see_path, see_marker, see_files, see_glob, add_names, see_service_glob,
  see_service, versioned, see_version_file, see_version,
}
use quantum_control.Inventory.Version.{clean_version}

-- The state of the host behind a probe of each item.
unfoldable pub after_each {ℓ} :
    {W : Type 0} {A : Type 0} {B : Type ℓ} → (A → W → B × W) → List A → W → W
after_each probe [] w = w
after_each probe (item ∷ rest) w = after_each probe rest (probe item w).1

-- The number of failures among the answers.
unfoldable pub failures_each {ℓ} :
    {W : Type 0} {A : Type 0} {B : Type ℓ} → (A → W → B × W) → (B → ℕ) → List A → W → ℕ
failures_each probe fails [] w = 0
failures_each probe fails (item ∷ rest) w =
    fails (probe item w).0 + failures_each probe fails rest (probe item w).1

abbrev pub no_answer {ℓ} : {B : Type ℓ} → Option B → ℕ
no_answer none = 1
no_answer (some b) = 0

abbrev pub no_file : FileProbe → ℕ
no_file probe_failed = 1
no_file missing_file = 0
no_file (file_content bytes) = 0

-- The units with those of the files that a glob has found.
unfoldable pub with_bases : List Text → List Text → List Text
with_bases [] units = units
with_bases (match ∷ rest) units = with_bases rest (append_unique units (base match))

abbrev pub with_matches : Option (List Text) → List Text → List Text
with_matches none units = units
with_matches (some matches) units = with_bases matches units

unfoldable pub units_each :
    {W : Type 0} → (Text → W → Option (List Text) × W) → List Text → List Text → W → List Text
units_each glob [] units w = units
units_each glob (pattern ∷ rest) units w =
    units_each glob rest (with_matches (glob pattern w).0 units) (glob pattern w).1

module _ {W : Type 0} (observer : Observer W) (find : Text → Option Text) where
  abbrev pub probe_file : Text → W → FileProbe × W
  probe_file path w = file_probe observer find path (observer.path_exists path w)

  -- The failed probes of a definition, in the order of the loops: paths, marker, globs, globs of
  -- services, the units of the definition and of those globs, and version files. The failure of a
  -- version command counts for nothing.
  unfoldable pub failed_probes : ComponentDefinition → W → ℕ
  failed_probes definition w =
      let marker = marker_list observer find definition.managed_marker in
      let w₁ = after_each observer.path_exists definition.paths w in
      let w₂ = after_each observer.path_exists marker w₁ in
      let w₃ = after_each observer.glob definition.globs w₂ in
      let w₄ = after_each observer.glob definition.service_globs w₃ in
      let units = units_each observer.glob definition.service_globs definition.services w₃ in
      let w₅ = after_each observer.service units w₄ in
      failures_each observer.path_exists no_answer definition.paths w
      + failures_each observer.path_exists no_answer marker w₁
      + failures_each observer.glob no_answer definition.globs w₂
      + failures_each observer.glob no_answer definition.service_globs w₃
      + failures_each observer.service no_answer units w₄
      + failures_each probe_file no_file definition.version_files w₅
