-- ===== src/Store.antt =====
-- The actions of useVpnStore.ts, a file for each group of them.
pub mod Initial
pub mod Logs
pub mod Profiles
pub mod Rules
pub mod Settings
pub mod Connection
pub mod Telemetry
pub mod Subscriptions
pub mod Storage
