-- ===== src/App.antt =====
-- node_agent/app.py: the HTTPS control plane, one child for each group of its endpoints.
pub mod Auth
pub mod Pairing
pub mod Accounts
pub mod Uploads
pub mod Material
pub mod Inbounds
pub mod Usage
pub mod Telemetry
pub mod Patch
pub mod Shaping
pub mod Roots
pub mod Cores
pub mod Adoption
pub mod Lifecycle
pub mod Bans
pub mod Settings
