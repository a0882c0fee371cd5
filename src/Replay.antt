-- ===== src/Replay.antt =====
-- The replay of candidate instructions over several days (src/quantpilot_core/multi_day_paper_replay).
pub mod Contracts
pub mod Preflight
pub mod Days
pub mod Run
pub mod Carry
pub mod Laws
pub mod Inputs
mod Tests
