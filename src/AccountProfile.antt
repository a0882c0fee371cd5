-- ===== src/AccountProfile.antt =====
-- The account profile and its preflight (src/quantpilot_core/account_profile_preflight).
pub mod Contracts
pub mod Limits
pub mod Preflight
pub mod Laws
pub mod Passed
pub mod Samples
mod Tests
