-- ===== src/Broker.antt =====
-- internal/broker.
pub mod Host
pub mod Registry
pub mod Mutations
pub mod Approved
pub mod Direct
pub mod Server
pub mod Client
