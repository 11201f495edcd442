-- ===== src/Pricing.antt =====
-- backend/app/domain/quote/pricing.py: the price of a service.
pub mod Rules
pub mod Engine
pub mod Bounds
pub mod Ignored
