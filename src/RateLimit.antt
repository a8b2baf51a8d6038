-- ===== src/RateLimit.antt =====
-- The rate limiters of app/core/rate_limit.py.
pub mod Window
pub mod Bounds
pub mod Interval
pub mod Redis
pub mod Counted
pub mod Limiter
pub mod Agree
pub mod Rate
pub mod RateText
mod Tests
