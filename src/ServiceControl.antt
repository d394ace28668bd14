-- ===== src/ServiceControl.antt =====
-- internal/servicecontrol.
pub mod Policy
pub mod Controller
