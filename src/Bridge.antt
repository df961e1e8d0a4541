-- ===== src/Bridge.antt =====
-- The bridge validation server, bridge/src/bridge.
pub mod Eth
pub mod Events
pub mod Utils
pub mod Recorder
pub mod Planner
pub mod NodeStatus
pub mod Fetcher
pub mod Sender
pub mod Watchers
pub mod Contracts
pub mod Config
pub mod Setup
pub mod Boot
mod Tests
