-- ===== src/Core.antt =====
-- Roles, errors and the shared Redis client: app/core/security.py, app/core/exceptions.py and
-- app/core/redis_client.py.
pub mod Role
pub mod Errors
pub mod RedisClient
mod Tests
