-- ===== src/World.antt =====
-- What the server works on and with: its rows and documents, the calls that it makes to the services
-- behind it, and the actions that its handlers are.
pub mod Data
pub mod Queries
pub mod Calls
pub mod Exec
pub mod Grows
pub mod Returns
pub mod Triple
pub mod Writes
