-- ===== src/Spend.antt =====
-- apps/backend/src/common/spend.ts: the daily spend of an account, from its charges or else from
-- the falls of its balance. Instants are milliseconds since 1970-01-01, and a day is the number of
-- its UTC day. `none` of a step that returns `Option` is a TypeError of the code: a write outside
-- an array, or a method of `null`.
pub mod Data
pub mod Currency
pub mod Charges
pub mod Snapshots
pub mod Account
pub mod Consistent
pub mod Total
pub mod Shares
