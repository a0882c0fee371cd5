-- ===== src/ModelRouter.antt =====
-- The cost-aware model router (src/quantpilot_core/deepseek_multi_agent/runtime_router.py): which
-- model answers a request, at what cost, and whether the budget allows it.
pub mod Contracts
pub mod Prices
pub mod Routing
pub mod Laws
mod Tests
