-- ===== src/Api.antt =====
-- services/api: the store of the control API, the coordinator that turns an approval into a live order,
-- and the routes over them.
pub mod State
pub mod Signals
pub mod Approvals
pub mod Ledger
pub mod Modes
pub mod Tenants
pub mod Connections
pub mod Coordinator
pub mod Routes
