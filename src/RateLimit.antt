-- ===== src/RateLimit.antt =====
-- The rate limiter, `RateLimitMiddleware` of backend/app/middleware.py.
pub mod Limiter
pub mod Window
pub mod Admission
