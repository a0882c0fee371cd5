-- ===== src/ProviderFallback.antt =====
-- The choice of an optional data provider (src/quantpilot_core/provider_fallback_selector).
pub mod Selector
pub mod Laws
mod Tests
