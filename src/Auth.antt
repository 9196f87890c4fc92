-- ===== src/Auth.antt =====
-- Package auth: the accounts, rate limiting of password attempts, stored hashes and TOTP codes.
pub mod Model
pub mod RateLimiter
pub mod Keyed
pub mod Password
pub mod Totp
pub mod Policy
pub mod Login
mod Tests
mod LoginTests
