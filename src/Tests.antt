-- ===== src/Tests.antt =====
-- The theorems at concrete inputs.
mod Collecting
mod Clients
mod Deploying
mod Mutating
mod Wizard
