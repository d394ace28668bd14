-- ===== src/Inventory/Scan.antt =====
-- internal/inventory/inventory.go: the scan of one component.
use quantum_control.Prelude.{
  ℕ, Bool, true, false, ◌&&◌, Option, none, some, List, [], ◌∷◌, ◌++◌, ltb, eqb, if◌then◌else◌,
  length,
}
use quantum_control.Text.{Text, text, ◌==◌}
use quantum_control.Text.Sort.{sort}
use quantum_control.Clock.{Time}
use quantum_control.Inventory.{
  Ownership, owned_managed, owned_external, owned_disabled, owned_unknown, Health, healthy,
  degraded, health_disabled, health_unknown, Component,
}
use quantum_control.Inventory.Steps.{
  ServiceState, VersionProbe, Scan, see_path, see_marker, see_glob, see_service_glob, see_service,
  FileProbe, see_version_file, see_version, probe_failed, missing_file, file_content,
}

-- The interface Observer over the state W of the host; an error is `none`.
pub record Observer (W : Type 0) : Type 0 where
  pub path_exists : Text → W → Option Bool × W
  pub read_file : Text → ℕ → W → Option Text × W
  pub command : Text → List Text → W → Option Text × W
  pub service : Text → W → Option ServiceState × W
  pub glob : Text → W → Option (List Text) × W

pub record ComponentDefinition : Type 0 where
  pub id : Text
  pub name : Text
  pub category : Text
  pub paths : List Text
  pub managed_marker : Text
  pub version_files : List Text
  pub versions : List VersionProbe
  pub services : List Text
  pub service_globs : List Text
  pub globs : List Text
  pub capabilities : List Text

-- The switch on the ownership, with the health and the warning of its cases.
unfoldable pub ownership_of_scan : Scan → Ownership
ownership_of_scan s =
    if s.marker && eqb s.non_marker 0
    then owned_unknown
    else if s.marker
    then owned_managed
    else if ltb 0 s.positive
    then owned_external
    else if ltb 0 s.errors
    then owned_unknown
    else owned_disabled

unfoldable pub health_of_scan : Scan → Ownership → Health
health_of_scan s owned_managed =
    if s.active then healthy else if s.inactive then degraded else health_unknown
health_of_scan s owned_external =
    if s.active then healthy else if s.inactive then degraded else health_unknown
health_of_scan s owned_unknown = health_unknown
health_of_scan s owned_disabled = health_disabled

abbrev warnings_of : Scan → Ownership → List Text
warnings_of s owned_unknown =
    if s.marker
    then text "managed marker exists without confirming runtime evidence" ∷ []
    else text "one or more read-only probes were inconclusive" ∷ []
warnings_of s owned_managed =
    if ltb 0 s.errors then text "some optional read-only probes were unavailable" ∷ [] else []
warnings_of s owned_external =
    if ltb 0 s.errors then text "some optional read-only probes were unavailable" ∷ [] else []
warnings_of s owned_disabled = []

abbrev only_version : List Text → Text
only_version (v ∷ []) = v
only_version [] = []
only_version (v ∷ w ∷ vs) = []

-- The component that the scan ends with.
unfoldable pub component_of : ComponentDefinition → Time → Scan → Component
component_of definition observed s =
    let ownership = ownership_of_scan s in
    record {
      id = definition.id;
      name = definition.name;
      category = definition.category;
      version = only_version s.versions;
      ownership = ownership;
      health = health_of_scan s ownership;
      services = sort s.services;
      listeners = [];
      roots = sort s.roots;
      capabilities = sort definition.capabilities;
      evidence = s.evidence;
      observed_at = observed;
      warnings =
          (if ltb 1 (length s.versions)
            then text "conflicting version evidence was withheld" ∷ []
            else [])
          ++ warnings_of s ownership;
    }

abbrev pub start_scan : ComponentDefinition → Scan
start_scan definition = record {
  positive = 0;
  non_marker = 0;
  errors = 0;
  marker = false;
  active = false;
  inactive = false;
  names = definition.services;
  versions = [];
  services = [];
  roots = [];
  evidence = [];
}

-- A loop that probes each item and writes what it sees.
unfoldable pub probe_each {ℓ} :
    {W : Type 0} {A : Type 0} {B : Type ℓ}
    → (A → W → B × W)
    → (A → B → Scan → Scan)
    → List A
    → Scan × W
    → Scan × W
probe_each probe see [] state = state
probe_each probe see (item ∷ rest) (s, w) =
    let (answer, after) = probe item w in probe_each probe see rest (see item answer s, after)

module _ {W : Type 0} (observer : Observer W) (find : Text → Option Text) where
  abbrev pub marker_list : Text → List Text
  marker_list marker = if marker == [] then [] else marker ∷ []

  abbrev pub read_probe : Option Text × W → FileProbe × W
  read_probe (none, w) = (probe_failed, w)
  read_probe (some bytes, w) = (file_content bytes, w)

  abbrev pub file_probe : Text → Option Bool × W → FileProbe × W
  file_probe path (none, w) = (probe_failed, w)
  file_probe path (some false, w) = (missing_file, w)
  file_probe path (some true, w) = read_probe (observer.read_file path 4096 w)

  -- The loops of scanDefinition in their order.
  unfoldable pub run_probes : ComponentDefinition → W → Scan × W
  run_probes definition w =
      let paths =
        probe_each observer.path_exists see_path definition.paths (start_scan definition, w) in
      let marked =
        probe_each observer.path_exists see_marker (marker_list definition.managed_marker) paths in
      let globbed = probe_each observer.glob see_glob definition.globs marked in
      let named = probe_each observer.glob see_service_glob definition.service_globs globbed in
      let served = probe_each observer.service see_service named.0.names named in
      let filed =
        probe_each (λ path v. file_probe path (observer.path_exists path v)) (see_version_file find)
          definition.version_files served in
      probe_each (λ (probe : VersionProbe) v. observer.command probe.command probe.arguments v)
        (see_version find) definition.versions filed
