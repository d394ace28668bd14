-- ===== src/Control.antt =====
-- internal/control: the public process in front of the broker.
pub mod Server
pub mod Auth
pub mod Dependencies
pub mod Guards
pub mod Roles
pub mod Tci
pub mod Exposure
pub mod Recordable
pub mod Recorded
pub mod Kept
pub mod Cached
pub mod Planned
pub mod Operations
pub mod Approvals
pub mod Reading
pub mod Routes
