-- ===== src/DryRun.antt =====
-- The dry run of a day's candidate instructions (src/quantpilot_core/paper_ledger_dry_run).
pub mod Contracts
pub mod Preflight
pub mod Simulate
pub mod Run
pub mod Steps
pub mod Laws
pub mod Order
pub mod Once
pub mod Decision
pub mod Flaws
pub mod Samples
mod Tests
