-- ===== src/Availability.antt =====
-- backend/app/domain/booking/availability.py: whether a requested time is available.
pub mod Times
pub mod Checks
pub mod Evaluator
pub mod Admitted
