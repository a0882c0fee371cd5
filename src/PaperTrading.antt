-- ===== src/PaperTrading.antt =====
-- Simulated fills of order intents (src/quantpilot_core/paper_trading and order_intent).
pub mod Contracts
pub mod Intents
pub mod Simulator
pub mod Controller
pub mod Normalized
pub mod Reasons
pub mod Laws
pub mod Books
pub mod Booked
mod Tests
