-- ===== src/Tests.antt =====
-- Concrete markets on which the theorems are tried.
pub mod Fixed
pub mod Data
pub mod Unfolded
pub mod Heaps
mod Orders
mod Engines
mod Network
mod Pools
mod Stores
mod Manifests
