-- ===== src/MarketReality.antt =====
-- The market reality sandbox (src/quantpilot_core/market_reality): the contracts of a sandbox
-- scenario, and the validation of a scenario, of an order draft and of a result.
pub mod Contracts
pub mod Scenario
pub mod Draft
pub mod Laws
pub mod Reasons
mod Tests
