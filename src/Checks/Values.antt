-- ===== src/Checks/Values.antt =====
-- Redaction, labels and the service policy at concrete inputs.
use quantum_control.Prelude.{◌≤◌, ◌≡◌, refl, false, Option, none, some, List, [], ◌∷◌, ok, length}
use quantum_control.Text.{Text, text, ◌==◌}
use quantum_control.Text.Trim.{trim_space}
use quantum_control.Protocol.{lookup, insert}
use quantum_control.Security.Redact.{redact_parameters, sanitize_label, has_control}
use quantum_control.Security.Redact.Laws.{
  AreRedacted, redact_parameters-AreRedacted, sanitize_label_bounds,
}
use quantum_control.ServiceControl.Policy.{
  PolicyFile, compiled_services, policy_schema, allow_units, load_policy, spec,
}
use quantum_control.ServiceControl.Policy.Laws.{named, load_policy_exact}

abbrev given : List (Text × Text)
given = (text "unit", text "a.service") ∷ (text "Api-Key", text "123") ∷ []

redact_parameters-AreRedacted_example : AreRedacted given (redact_parameters given)
redact_parameters-AreRedacted_example = redact_parameters-AreRedacted given

sanitize_label_bounds_example :
    (length (sanitize_label (text " executed") 4) ≤ 4)
    × (has_control (sanitize_label (text " executed") 4) ≡ false)
sanitize_label_bounds_example = sanitize_label_bounds (text " executed") 4

abbrev document : PolicyFile
document = record { schema = policy_schema; allowed_units = text " quantum-runtime.service" ∷ [] }

abbrev decode : Text → Option PolicyFile
decode t = some document

named_path : (trim_space (text "/etc/p") == []) ≡ false
unfolding text trim_space ◌==◌
named_path = refl

loaded : load_policy decode (text "/etc/p") (some (text "f")) ≡ ok compiled_services
unfolding load_policy allow_units text trim_space ◌==◌ lookup insert compiled_services
loaded = refl

load_policy_exact_example :
    spec compiled_services (text "quantum-runtime.service")
    ≡ named document.allowed_units (text "quantum-runtime.service") none
load_policy_exact_example =
    load_policy_exact decode (text "/etc/p") (text "f") document compiled_services
      (text "quantum-runtime.service") named_path refl loaded
