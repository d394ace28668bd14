-- ===== src/Inventory/Steps.antt =====
-- internal/inventory/inventory.go: the bodies of the loops of scanDefinition.
use quantum_control.Prelude.{
  ℕ, ◌+◌, Bool, true, false, ◌||◌, Option, none, some, List, [], ◌∷◌, ◌++◌, reverse, eqb,
  if◌then◌else◌,
}
use quantum_control.Text.{Text, text, ◌==◌}
use quantum_control.Text.Sort.{contains}
use quantum_control.Inventory.{Evidence}
use quantum_control.Inventory.Version.{clean_version}

pub record ServiceState : Type 0 where
  pub unit : Text
  pub load_state : Text
  pub active_state : Text
  pub sub_state : Text

pub record VersionProbe : Type 0 where
  pub command : Text
  pub arguments : List Text

-- The variables of scanDefinition.
pub record Scan : Type 0 where
  pub positive : ℕ
  pub non_marker : ℕ
  pub errors : ℕ
  pub marker : Bool
  pub active : Bool
  pub inactive : Bool
  pub names : List Text
  pub versions : List Text
  pub services : List Text
  pub roots : List Text
  pub evidence : List Evidence

-- appendUnique
unfoldable pub append_unique : List Text → Text → List Text
append_unique values value = if contains value values then values else values ++ value ∷ []

abbrev pub evidence_of : Text → Text → Text → Evidence
evidence_of kind source detail = record { kind = kind; source = source; detail = detail }

-- A probe that failed.
abbrev failed : Scan → Scan
failed s = record s { errors = s.errors + 1 }

-- Evidence that is no ownership marker.
abbrev pub found : Evidence → Scan → Scan
found e s = record s {
  positive = s.positive + 1;
  non_marker = s.non_marker + 1;
  evidence = s.evidence ++ e ∷ [];
}

-- The body of the loop over the paths.
unfoldable pub see_path : Text → Option Bool → Scan → Scan
see_path path none s = failed s
see_path path (some false) s = s
see_path path (some true) s =
    found (evidence_of (text "path") path (text "present"))
      (record s { roots = append_unique s.roots path })

-- The test of the marker.
unfoldable pub see_marker : Text → Option Bool → Scan → Scan
see_marker marker none s = failed s
see_marker marker (some false) s = s
see_marker marker (some true) s = record s {
  positive = s.positive + 1;
  marker = true;
  evidence = s.evidence ++ evidence_of (text "ownership-marker") marker (text "present") ∷ [];
}

unfoldable pub see_files : List Text → Scan → Scan
see_files [] s = s
see_files (match ∷ rest) s =
    see_files rest (found (evidence_of (text "filesystem") match (text "present")) s)

-- The body of the loop over the globs.
unfoldable pub see_glob : Text → Option (List Text) → Scan → Scan
see_glob pattern none s = failed s
see_glob pattern (some matches) s = see_files matches s

unfoldable pub drop_slashes : Text → Text
drop_slashes [] = []
drop_slashes (b ∷ rest) = let left = drop_slashes rest in if eqb b b'/' then left else b ∷ rest

unfoldable pub until_slash : Text → Text
until_slash [] = []
until_slash (b ∷ rest) = let left = until_slash rest in if eqb b b'/' then [] else b ∷ left

-- filepath.Base on Unix
unfoldable pub base : Text → Text
base path =
    if path == []
    then text "."
    else if drop_slashes (reverse path) == []
    then text "/"
    else reverse (until_slash (drop_slashes (reverse path)))

unfoldable pub add_names : List Text → Scan → Scan
add_names [] s = s
add_names (match ∷ rest) s =
    add_names rest (record s { names = append_unique s.names (base match) })

-- The body of the loop over the globs of services.
unfoldable pub see_service_glob : Text → Option (List Text) → Scan → Scan
see_service_glob pattern none s = failed s
see_service_glob pattern (some matches) s = add_names matches s

abbrev slashed : ServiceState → Text
slashed state =
    state.load_state ++ (text "/" ++ (state.active_state ++ (text "/" ++ state.sub_state)))

abbrev pub loaded_service : ServiceState → Scan → Scan
loaded_service state s =
    let seen =
      found (evidence_of (text "service") state.unit (slashed state))
        (record s { services = append_unique s.services state.unit }) in
    if state.active_state == text "active"
    then record seen { active = true }
    else record seen { inactive = true }

-- The body of the loop over the units.
unfoldable pub see_service : Text → Option ServiceState → Scan → Scan
see_service unit none s = failed s
see_service unit (some state) s =
    if state.load_state == [] || state.load_state == text "not-found"
    then s
    else loaded_service state s

abbrev pub versioned : Text → Text → Text → Scan → Scan
versioned kind source value s =
    if value == []
    then s
    else found (evidence_of kind source value)
        (record s { versions = append_unique s.versions value })

-- What a version file shows.
pub data FileProbe : Type 0 where
  probe_failed missing_file : FileProbe
  file_content : Text → FileProbe

-- The body of the loop over the version files.
unfoldable pub see_version_file : (Text → Option Text) → Text → FileProbe → Scan → Scan
see_version_file find path probe_failed s = failed s
see_version_file find path missing_file s = s
see_version_file find path (file_content bytes) s =
    versioned (text "version-file") path (clean_version find bytes) s

-- The body of the loop over the version commands, whose failure counts for nothing.
unfoldable pub see_version : (Text → Option Text) → VersionProbe → Option Text → Scan → Scan
see_version find probe none s = s
see_version find probe (some output) s =
    versioned (text "version") probe.command (clean_version find output) s
