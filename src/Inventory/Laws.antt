-- ===== src/Inventory/Laws.antt =====
-- What the evidence of a component says of its ownership and of its health.
use quantum_control.Text.{Text}
use quantum_control.Inventory.Steps.{Scan}
use quantum_control.Inventory.Service.{Service}
