-- ===== src/Commercial.antt =====
-- backend/app/domain/commercial_policy: the platform's fee.
pub mod Policy
pub mod Fees
pub mod FeeBounds
pub mod FeeCases
pub mod Resolution
pub mod Chosen
pub mod Activation
pub mod Superseding
