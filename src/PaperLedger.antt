-- ===== src/PaperLedger.antt =====
-- The paper ledger dry path (src/quantpilot_core/paper_ledger): one order against one account.
pub mod Contracts
pub mod Costs
pub mod Constrained
pub mod Gated
pub mod Laws
pub mod Accepted
pub mod Flaws
mod Tests
