-- ===== src/Resource.antt =====
-- gateway/internal/resource: what keeps the gateway within its file descriptors and request rates.
pub mod Limiter
pub mod Breaker
pub mod Guard
mod Tests
