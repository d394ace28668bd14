-- ===== src/Checks/Inventory.antt =====
-- internal/inventory/inventory.go at concrete inputs.
use quantum_control.Prelude.{ℕ, ◌+◌, true, false, Option, none, some, [], ◌∷◌}
use quantum_control.Text.{Text, text}
use quantum_control.Inventory.{Component}
use quantum_control.Inventory.Scan.{Observer, ComponentDefinition, run_probes, component_of}
use quantum_control.Inventory.Steps.{ServiceState}
use quantum_control.Inventory.Service.{Service}
use quantum_control.Checks.Data.{start}

abbrev definition : ComponentDefinition
definition = record {
  id = text "quantum-runtime";
  name = text "Quantum Runtime";
  category = text "ai-runtime";
  paths = text "/etc/quantum-runtime" ∷ [];
  managed_marker = text "/etc/quantum-runtime/.managed.json";
  version_files = [];
  versions = [];
  services = text "quantum-runtime.service" ∷ [];
  service_globs = [];
  globs = [];
  capabilities = text "streaming" ∷ text "local-inference" ∷ [];
}

abbrev running : ServiceState
running = record {
  unit = text "quantum-runtime.service";
  load_state = text "loaded";
  active_state = text "active";
  sub_state = text "running";
}

-- Every path exists and the service runs; the state is the number of probes.
abbrev observer : Observer ℕ
observer = record {
  path_exists = λ path w. (some true, w + 1);
  read_file = λ path limit w. (none, w + 1);
  command = λ name args w. (none, w + 1);
  service = λ unit w. (some running, w + 1);
  glob = λ pattern w. (some [], w + 1);
}

abbrev service : Service ℕ
service = record {
  observer = observer;
  definitions = definition ∷ [];
  now = λ w. (start, w);
  ended = λ w. false;
}

abbrev find : Text → Option Text
find t = none

abbrev component : Component
component = component_of definition start (run_probes observer find definition 0).0
