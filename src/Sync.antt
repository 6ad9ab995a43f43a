-- ===== src/Sync.antt =====
-- apps/backend/src/sync/sync.service.ts: what a sync of an account reads from the provider, and
-- what it writes.
pub mod Tables
pub mod Services
pub mod Kept
pub mod Rounds
pub mod Upsert
pub mod Run
pub mod Payments
pub mod Batch
pub mod Calls
pub mod Ending
