-- ===== src/Bridge/Tests.antt =====
-- Runs of the bridge on small inputs, and its theorems at inputs that meet their hypotheses.
mod Samples
mod Recording
mod Planning
mod Fetching
mod Sending
mod Making
mod Booting
