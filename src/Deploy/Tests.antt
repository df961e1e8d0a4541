-- ===== src/Deploy/Tests.antt =====
-- Runs of the deployment tools on a small chain, and their theorems there.
mod Deploying
mod Creating
