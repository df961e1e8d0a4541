-- ===== src/Quickstart.antt =====
-- The quickstart (quickstart/src/quickstart), which sets up a node with its services.
pub mod Session
pub mod Frame
pub mod Framed
pub mod Yields
pub mod Steps
pub mod Prompts
pub mod Account
pub mod BridgeConfig
pub mod Netstats
pub mod Env
pub mod Docker
pub mod Run
mod Tests
