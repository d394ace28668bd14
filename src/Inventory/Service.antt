-- ===== src/Inventory/Service.antt =====
-- internal/inventory/inventory.go: Service, which implements the interface of the scanner.
use quantum_control.Prelude.{Bool, not, Option, none, some, List, [], ◌∷◌, if◌then◌else◌}
use quantum_control.Text.{Text, ◌==◌}
use quantum_control.Text.Sort.{sort_by}
use quantum_control.Clock.{Time}
use quantum_control.Inventory.{Component, Snapshot, Scanner, schema_version}
use quantum_control.Inventory.Scan.{ComponentDefinition, Observer, run_probes, component_of}
use quantum_control.Inventory.Definitions.{default_definitions}

-- The fields of Service, with the test of a request's context. The clock and the context are in W.
pub record Service (W : Type 0) : Type 0 where
  pub observer : Observer W
  pub definitions : List ComponentDefinition
  pub now : W → Time × W
  pub ended : W → Bool

module _ {W : Type 0} (find : Text → Option Text) where
  -- NewScanner, of an observer that is given.
  abbrev pub new_scanner : Observer W → (W → Time × W) → (W → Bool) → Service W
  new_scanner observer now ended = record {
    observer = observer;
    definitions = default_definitions;
    now = now;
    ended = ended;
  }

  abbrev scanned : ComponentDefinition → Time → W → Service W → Option Component × W
  scanned definition observed w service =
      let (s, after) = run_probes service.observer find definition w in
      (some (component_of definition observed s), after)

  -- scanDefinition
  unfoldable pub scan_definition : Service W → ComponentDefinition → Time → W → Option Component × W
  scan_definition service definition observed w =
      if service.ended w then (none, w) else scanned definition observed w service

  abbrev then_all : Component → Option (List Component) × W → Option (List Component) × W
  then_all component (none, w) = (none, w)
  then_all component (some others, w) = (some (component ∷ others), w)

  -- The loop of Snapshot, which ends with the first error.
  unfoldable pub scan_all :
      Service W → List ComponentDefinition → Time → W → Option (List Component) × W
  scan_all service [] observed w = (some [], w)
  scan_all service (definition ∷ rest) observed w =
      let (answer, after) = scan_definition service definition observed w in
      let others = scan_all service rest observed after in
      elim answer [ none ↦ (none, after) | some component ↦ then_all component others ]

  abbrev sorted_by_id : Time → Option (List Component) × W → Option Snapshot × W
  sorted_by_id observed (none, w) = (none, w)
  sorted_by_id observed (some components, w) = (
    some (record {
      schema = schema_version;
      observed_at = observed;
      components = sort_by (λ (c : Component). c.id) components;
    }),
    w,
  )

  -- Service.Snapshot
  unfoldable pub snapshot : Service W → W → Option Snapshot × W
  snapshot service w =
      if service.ended w
      then (none, w)
      else (let (observed, after) = service.now w in
          sorted_by_id observed (scan_all service service.definitions observed after))

  abbrev found_component : Option Component × W → Option (Option Component) × W
  found_component (none, w) = (none, w)
  found_component (some c, w) = (some (some c), w)

  -- The loop of Component.
  unfoldable pub find_component :
      Service W → List ComponentDefinition → Text → W → Option (Option Component) × W
  find_component service [] name w = (some none, w)
  find_component service (definition ∷ rest) name w =
      let next = find_component service rest name w in
      let (observed, after) = service.now w in
      if not (definition.id == name)
      then next
      else found_component (scan_definition service definition observed after)

  -- Service as a scanner.
  abbrev pub scanner_of : Service W → Scanner W
  scanner_of service = record {
    snapshot = snapshot service;
    component = find_component service service.definitions;
  }
