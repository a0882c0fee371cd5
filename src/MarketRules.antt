-- ===== src/MarketRules.antt =====
-- The A-share rules of an order intent under a configurable profile (src/quantpilot_core/market_rules).
pub mod Types
pub mod AShare
pub mod Laws
pub mod Compliant
mod Tests
