-- ===== src/ServiceControl/Controller.antt =====
-- internal/servicecontrol/controller.go: the argument vectors of systemctl. The search of the path
-- for systemctl and the run of a command are the caller's.
use quantum_control.Prelude.{
  Bool, ◌||◌, Option, List, [], ◌∷◌, if◌then◌else◌, Result, ok, ◌>>=◌, ◌>>◌, require, or_fail,
}
use quantum_control.Text.{Text, text, ◌==◌}
use quantum_control.Text.Trim.{trim_space}
use quantum_control.Security.Actor.{matches_subject}

-- unitPattern, which is serviceUnitPattern of the broker too.
unfoldable pub matches_unit : Text → Bool
matches_unit = matches_subject 127

pub data ControlError : Type 0 where
  invalid_unit unsupported_action unavailable : ControlError

-- The binary and the arguments that are handed to the runner.
pub record Command : Type 0 where
  pub binary : Text
  pub arguments : List Text

-- Native.run up to the runner; `found` is what exec.LookPath finds.
unfoldable pub run_command : Text → Option Text → Text → Text → Result ControlError Command
run_command configured found verb unit = do
  require (matches_unit unit) invalid_unit
  require (verb == text "start" || verb == text "stop" || verb == text "restart") unsupported_action
  let binary = trim_space configured
  path ← if binary == [] then or_fail found unavailable else ok binary
  ok (record { binary = path; arguments = verb ∷ text "--" ∷ unit ∷ [] })
