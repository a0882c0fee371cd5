-- ===== src/ReportingStore.antt =====
-- The reporting store of the continuous paper cycle (src/quantpilot_core/continuous_paper/store.py):
-- tables whose rows are never changed, and a bundle that is written whole or not at all.
pub mod Rows
pub mod Cycle
pub mod Keeps
pub mod Laws
mod Tests
