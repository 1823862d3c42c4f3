-- ===== src/Collect.antt =====
-- Collecting plan payments: webapp/src/lib/collect-utils.ts, collection-history.ts and
-- collect-all-results.ts.
pub mod Types
pub mod Eligibility
pub mod Cache
pub mod Account
pub mod Readiness
pub mod Send
pub mod Results
pub mod History
