-- ===== src/RateLimit.antt =====
-- Rate limits (src/common/guards/rate-limit.guard.ts, src/common/throttler).
mod Guard
mod Bounded
mod Cleanup
pub mod Redis
mod Log
mod Retry
mod Memory
mod Tests
