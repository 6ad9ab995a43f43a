-- ===== src/Rates.antt =====
-- apps/backend/src/currency: the latest rates, the archive of daily rates, and conversion.
pub mod Latest
pub mod Archive
