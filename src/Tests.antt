-- ===== src/Tests.antt =====
-- Examples of the theorems on concrete data, with small tables that stand for the database.
pub mod Tables
pub mod Json
mod Credentials
mod Merging
mod Analytics
mod Sync
mod Ledger
mod Services
mod Projects
mod Accounts
mod Auth
mod Session
mod Rates
mod Spend
mod Messages
mod Notifications
