-- ===== src/Checks.antt =====
-- The theorems of the library at concrete inputs.
mod Data
mod Actors
mod Plans
mod Values
mod Grants
mod Restart
mod Audit
mod Broker
mod Approved
mod Requests
mod Control
mod Exposure
mod Start
mod Inventory
mod Confirm
pub mod Client
