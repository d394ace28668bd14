-- ===== src/Broker/Mutations/Progress.antt =====
-- A service transaction succeeds where its service reaches the expected state in time.
use quantum_control.Prelude.{false, ◌≡◌, true}
use quantum_control.Text.{Text}
use quantum_control.Broker.Host.{Host}
use quantum_control.Broker.Registry.{Registry}
use quantum_control.Broker.Mutations.Polling.{Round}

-- From a state of the host rounds that do not find the expected state, each with a tick before the
-- end of the context behind it, come to a round that does.
pub data Arrives {W : Type 0} (host : Host W) (unit url expected : Text) : W → Type 0 where
  here : (w seen : W) → Round host unit url expected w true seen → Arrives host unit url expected w
  later :
      (w seen : W)
      → Round host unit url expected w false seen
      → (host.wait seen).0 ≡ true
      → Arrives host unit url expected (host.wait seen).1
      → Arrives host unit url expected w
