-- ===== src/Auth.antt =====
-- apps/backend/src/auth and api-tokens: who may sign in, and what a request may do.
pub mod Config
pub mod Signin
pub mod Lockout
pub mod RelyingParty
pub mod Challenge
pub mod Guard
pub mod Session
