-- ===== src/ActionBridge.antt =====
-- Proposals of AI agents turned into candidate instructions (src/quantpilot_core/ai_action_paper_bridge).
pub mod Contracts
pub mod Preflight
pub mod Bridge
pub mod Laws
pub mod Decision
pub mod Rounds
mod Tests
