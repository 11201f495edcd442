-- ===== src/RateLimit.antt =====
-- backend/app/middleware/rate_limit.py: the sliding window in front of the authentication endpoints.
pub mod Limiter
pub mod Window
