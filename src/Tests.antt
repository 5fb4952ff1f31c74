-- ===== src/Tests.antt =====
-- Concrete services, and the theorems at work on them.
pub mod Services
pub mod Runs
pub mod Api
pub mod Events
pub mod Guard
pub mod Members
pub mod Organizations
pub mod Throttle
pub mod Keys
pub mod Routes
pub mod Environment
