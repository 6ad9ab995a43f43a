-- ===== src/Services.antt =====
-- apps/backend/src/services/: services that the owner creates and edits.
pub mod Baseline
pub mod Owner
pub mod Edits
pub mod Update
pub mod Resync
