-- ===== src/Deploy.antt =====
-- The tools that deploy and administer the contracts (deploy-tools).
pub mod Auction
pub mod Whitelist
pub mod Validators
pub mod Contracts
mod Tests
