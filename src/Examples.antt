-- ===== src/Examples.antt =====
-- Concrete data and runs. No other module uses these.
mod Data
mod Replay
mod Identity
mod Auth
mod Jobs
mod Compat
mod Config
mod Settings
mod State
mod Accounts
mod Limits
mod Pushes
mod Inbounds
mod Usage
mod Patch
mod Telemetry
mod Tls
mod Bans
mod Lifecycle
mod Cores
mod Adoption
mod Cli
mod InfoApi
