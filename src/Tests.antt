-- ===== src/Tests.antt =====
-- Runs of the model at concrete inputs.
mod Sample
mod Payments
mod Fees
mod Queue
mod Journey
mod Prices
mod Limits
mod Brains
mod Creation
mod Chat
mod Versions
